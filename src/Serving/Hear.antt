-- ===== src/Serving/Hear.antt =====
-- The invariant under what comes from the broker.
use door_switch_svr.Prelude.{
  ℕ, List, [], ◌∷◌, ◌++◌, ◌≡◌, refl, sym, ap, subst, inl, inr, ◌&&◌, Option, none, some, All,
  All-mono, All-append, arith, if◌then◌else◌,
}
use door_switch_svr.Prelude.Int.{ℤ, leb_ℤ, pos, pos_part}
use door_switch_svr.OrderedMap.{key_ℕ, key_text, find}
use door_switch_svr.Param.{Text, SwitchInfo, SvrCfg}
use door_switch_svr.Poco.{Json, Result, ok, thrown}
use door_switch_svr.Controller.{Controller}
use door_switch_svr.Handler.{Handler}
use door_switch_svr.Handler.Sound.{
  IsSoundDoor, IsSound, own-IsSound, IsSoundEntry, new_handler-IsSound,
}
use door_switch_svr.Handler.Alive.{IsAlive, own-IsAlive, new_handler-IsAlive}
use door_switch_svr.Engine.{OpenDoorRequest, Surroundings, read_request, on_recv_mqtt_message}
use door_switch_svr.Mqtt.{MosquittoMessage, on_message}
use door_switch_svr.Engine.Request.{Asks, narrowed}
use door_switch_svr.Engine.Invariant.{recv-IsWell}
use door_switch_svr.Engine.Every.{recv-kept}
use door_switch_svr.Svr.{BrokerEvent, connected, delivered, receive, deliver}
use door_switch_svr.Svr.Load.Loaded.{IsTable}
use door_switch_svr.Serving.{Sent, Server, wanted, wanted_by, wanted_door, asks_of, hear}
use door_switch_svr.Serving.Safe.{WasAsked, IsDoorOf, IsSafe}

-- A message that the proxy lets through.
pub heard-engine :
    (json : Json) (cfg : SvrCfg) (env : Surroundings) (message : MosquittoMessage) (payload : Text)
    (s : Server)
    → on_message message s.proxy ≡ some payload
    → let s' = hear json cfg (delivered env message) s in
      (s'.engine ≡ (on_recv_mqtt_message json cfg env payload s.engine).0)
      × (s'.sent ≡ s.sent)
      × (s'.proxy ≡ s.proxy)
unfolding hear receive deliver
heard-engine json cfg env message payload s let_through =
    (ap (λ o. deliver json cfg env o s.engine) let_through, refl, refl)

WasAsked-append :
    (new asked : List (Text × ℕ)) (c : ℕ) → WasAsked asked c → WasAsked (new ++ asked) c
WasAsked-append [] asked c w = w
WasAsked-append (a ∷ new) asked c w = inr (WasAsked-append new asked c w)

pub IsSound-mono :
    (Q Q' : ℕ → Type 0) (h : Handler) → ((c : ℕ) → Q c → Q' c) → IsSound Q h → IsSound Q' h
IsSound-mono Q Q' h f s =
    All-mono (IsSoundEntry Q) (IsSoundEntry Q') h.controllers (λ e d. door e.1 d) s
  where
    door : (c : Controller) → IsSoundDoor Q c → IsSoundDoor Q' c
    door c (inl n) = inl n
    door c (inr (callback, q)) = inr (callback, f c.channel q)

-- The record of what was asked grows.
module _ (cfg : SvrCfg) (new : List (Text × ℕ)) (s : Server) (i : IsSafe cfg s) where
  IsSound-more :
      All (λ (e : Text × Handler). IsSound (WasAsked (new ++ s.asked)) e.1) s.engine.handlers
  IsSound-more =
      All-mono (λ (e : Text × Handler). IsSound (WasAsked s.asked) e.1) _ s.engine.handlers
        (λ e. IsSound-mono _ _ e.1 (WasAsked-append new s.asked)) i.sound

  justified-more : All (λ (x : Sent). WasAsked (new ++ s.asked) x.channel) s.sent
  justified-more =
      All-mono (λ (x : Sent). WasAsked s.asked x.channel) _ s.sent
        (λ x. WasAsked-append new s.asked x.channel) i.justified

wanted_door-IsDoorOf :
    (cfg : SvrCfg) (req : OpenDoorRequest) (o : Option SwitchInfo)
    → find req.switch_id cfg.map_oid_switch_info ≡ o
    → All (IsDoorOf cfg) (wanted_door req o)
unfolding wanted_door
wanted_door-IsDoorOf cfg req none found = tt
wanted_door-IsDoorOf cfg req (some info) found = ground (arith, found)

wanted_by-IsDoorOf :
    (cfg : SvrCfg) (r : Result OpenDoorRequest) → All (IsDoorOf cfg) (wanted_by cfg r)
unfolding wanted_by
wanted_by-IsDoorOf cfg (thrown what) = tt
wanted_by-IsDoorOf cfg (ok req) =
    wanted_door-IsDoorOf cfg req (find req.switch_id cfg.map_oid_switch_info) refl

pub asks-wanted :
    (json : Json) (cfg : SvrCfg) (payload : Text) (req : OpenDoorRequest) (info : SwitchInfo)
    (c : ℕ)
    → Asks json cfg payload req info c
    → wanted json cfg (some payload) ≡ (req.switch_id, c) ∷ []
unfolding wanted wanted_by wanted_door
asks-wanted json cfg payload req info c a = rw (a.reads, a.found) (in_range req.channel a.asked)
  where
    in_range :
        (b : ℤ)
        → b ≡ pos c
        → (let door : List (Text × ℕ) = (req.switch_id, pos_part b) ∷ [] in
            if leb_ℤ (pos 1) b && leb_ℤ b (pos info.channels) then door else [])
          ≡ (req.switch_id, c) ∷ []
    in_range b q = ground (arith, a.lower, a.upper)

deliver-IsSafe :
    (json : Json) (cfg : SvrCfg) (env : Surroundings) (o : Option Text) (s : Server)
    → IsTable cfg.map_oid_switch_info
    → IsSafe cfg s
    → IsSafe cfg (record s {
      engine = deliver json cfg env o s.engine;
      asked = wanted json cfg o ++ s.asked;
    })
unfolding deliver
deliver-IsSafe json cfg env none s t i = unfold wanted in i
deliver-IsSafe json cfg env (some payload) s t i =
    let new = wanted json cfg (some payload) in
    let Q : ℕ → Type 0 = WasAsked (new ++ s.asked) in
    record {
      well = recv-IsWell json cfg env payload s.engine t i.well;
      alive =
          recv-kept _ IsAlive own-IsAlive new_handler-IsAlive (λ error. tt) json cfg env payload
            s.engine t (λ req info c asks. tt) i.alive;
      sound =
          recv-kept _ (IsSound Q) (own-IsSound Q) (new_handler-IsSound Q) (λ error. tt) json cfg env
            payload s.engine t
            (λ req info c asks. subst Q (sym (narrowed json cfg env payload req info c asks)) (
              subst (λ xs. WasAsked (xs ++ s.asked) c)
                (sym (asks-wanted json cfg payload req info c asks)) (inl refl)))
            (IsSound-more cfg new s i);
      allowed =
          All-append (IsDoorOf cfg) new s.asked
            (unfold wanted in wanted_by-IsDoorOf cfg (read_request json payload)) i.allowed;
      justified = justified-more cfg new s i;
    }

pub hear-IsSafe :
    (json : Json) (cfg : SvrCfg) (event : BrokerEvent) (s : Server)
    → IsTable cfg.map_oid_switch_info
    → IsSafe cfg s
    → IsSafe cfg (hear json cfg event s)
unfolding hear receive asks_of
hear-IsSafe json cfg (connected rc) s t i = record {
  well = i.well;
  alive = i.alive;
  sound = i.sound;
  allowed = i.allowed;
  justified = i.justified;
}
hear-IsSafe json cfg (delivered env message) s t i =
    let j = deliver-IsSafe json cfg env (on_message message s.proxy) s t i in
    record {
      well = j.well;
      alive = j.alive;
      sound = j.sound;
      allowed = j.allowed;
      justified = j.justified;
    }
