-- ===== src/Serving/Routed.antt =====
-- The server while new switches come in ascending order of their ids: each command goes to the switch that
-- it was asked for.
use door_switch_svr.Prelude.{
  ℕ, List, [], ◌∷◌, ◌++◌, ◌≡◌, refl, sym, subst, ◌⊎◌, inl, inr, true, Option, none, some, All,
  All-mono, All-append,
}
use door_switch_svr.Prelude.Int.{u16, i16}
use door_switch_svr.OrderedMap.{key_ℕ, key_text, find}
use door_switch_svr.OrderedMap.Laws.{IsSorted}
use door_switch_svr.OrderedMap.Every.{All-find, All-adjust}
use door_switch_svr.Param.{Text, SwitchInfo, SvrCfg}
use door_switch_svr.Poco.{Json}
use door_switch_svr.Handler.{Handler, new_handler}
use door_switch_svr.Handler.Event.{Event, step, step-kept}
use door_switch_svr.Handler.Sound.{IsSound, IsFair, own-IsSound, new_handler-IsSound}
use door_switch_svr.Engine.{
  new_engine, on_recv_mqtt_message, OpenDoorRequest, Engine, Surroundings, Reply, connect_open,
}
use door_switch_svr.Engine.Request.{Asks, narrowed, change_needs_request}
use door_switch_svr.Engine.Every.{request-Asks, open_on-kept, connect_open-kept}
use door_switch_svr.Engine.InOrder.{IsNextSwitch, message_in_order, meant-All}
use door_switch_svr.Mqtt.{on_message}
use door_switch_svr.Svr.{BrokerEvent, connected, delivered, receive, deliver}
use door_switch_svr.Svr.Load.Loaded.{IsTable}
use door_switch_svr.Serving.{
  Sent, Server, new_server, wanted, asks_of, hear, sends, act, is_own, Reach, begins, later, hears,
  acts,
}
use door_switch_svr.Serving.Hear.{asks-wanted, IsSound-mono}
use door_switch_svr.Serving.Act.{own-IsFair, sends-IsJustified}
use door_switch_svr.Serving.Invariant.{Reach-IsSafe}

-- Some message asked for this door of this switch.
abbrev pub WasAskedFor : List (Text × ℕ) → Text → ℕ → Type 0
WasAskedFor [] k c = ⊥
WasAskedFor (a ∷ asked) k c = ((a.0 ≡ k) × (a.1 ≡ c)) ⊎ WasAskedFor asked k c

-- A run in which each request is for a switch that has a handler, or one with an id above all that have
-- one.
pub data OrderedReach (json : Json) (cfg : SvrCfg) : Server → Type 0 where
  ordered_begins : OrderedReach json cfg (new_server cfg)
  ordered_hears :
      {s : Server} (event : BrokerEvent)
      → OrderedReach json cfg s
      → All (λ (a : Text × ℕ). IsNextSwitch a.0 s.engine) (asks_of json cfg event s.proxy)
      → OrderedReach json cfg (hear json cfg event s)
  ordered_acts :
      {s : Server} (k : Text) (event : Event) {h h' : Handler}
      → OrderedReach json cfg s
      → is_own event ≡ true
      → find k s.engine.handlers ≡ some h
      → step event h ≡ some h'
      → OrderedReach json cfg (act k event h h' s)

pub ordered-Reach :
    (json : Json) (cfg : SvrCfg) (s : Server) → OrderedReach json cfg s → Reach json cfg s
ordered-Reach json cfg _ ordered_begins = begins
ordered-Reach json cfg _ (ordered_hears {s = s} event r next) =
    later (ordered-Reach json cfg s r) (hears event)
ordered-Reach json cfg _ (ordered_acts {s = s} k event r own found moved) =
    later (ordered-Reach json cfg s r) (acts k event own found moved)

abbrev pub IsRoutedDoor : List (Text × ℕ) → Text × Handler → Type 0
IsRoutedDoor asked e = IsSound (WasAskedFor asked e.0) e.1

abbrev pub IsRoutedCommand : List (Text × ℕ) → Sent → Type 0
IsRoutedCommand asked x = WasAskedFor asked x.switch_id x.channel

record IsRouted (s : Server) : Type 0 where
  doors : All (IsRoutedDoor s.asked) s.engine.handlers
  commands : All (IsRoutedCommand s.asked) s.sent

WasAskedFor-append :
    (new asked : List (Text × ℕ)) (k : Text) (c : ℕ)
    → WasAskedFor asked k c
    → WasAskedFor (new ++ asked) k c
WasAskedFor-append [] asked k c w = w
WasAskedFor-append (a ∷ new) asked k c w = inr (WasAskedFor-append new asked k c w)

IsRouted-more :
    (new : List (Text × ℕ)) (s : Server)
    → IsRouted s
    → IsRouted (record s { asked = new ++ s.asked })
IsRouted-more new s r = record {
  doors =
      All-mono (IsRoutedDoor s.asked) (IsRoutedDoor (new ++ s.asked)) s.engine.handlers
        (λ e. IsSound-mono _ _ e.1 (WasAskedFor-append new s.asked e.0)) r.doors;
  commands =
      All-mono (IsRoutedCommand s.asked) (IsRoutedCommand (new ++ s.asked)) s.sent
        (λ x. WasAskedFor-append new s.asked x.switch_id x.channel) r.commands;
}

deliver-IsRouted :
    (json : Json) (cfg : SvrCfg) (env : Surroundings) (o : Option Text) (s : Server)
    → IsTable cfg.map_oid_switch_info
    → IsSorted s.engine.handlers
    → All (λ (a : Text × ℕ). IsNextSwitch a.0 s.engine) (wanted json cfg o)
    → IsRouted s
    → IsRouted (record s {
      engine = deliver json cfg env o s.engine;
      asked = wanted json cfg o ++ s.asked;
    })
unfolding deliver
deliver-IsRouted json cfg env none s t sorted next r = unfold wanted in r
deliver-IsRouted json cfg env (some payload) s t sorted next r =
    elim (change_needs_request json cfg env payload s.engine) [
      | inl same ↦ subst (λ e. IsRouted (record s { engine = e; asked = asked })) (sym same) more
      | inr (req, info, reads, found, l, u) ↦
          let (c, asks) = request-Asks json cfg payload req info t reads found l u in
          for_request req info c asks
    ]
  where
    asked : List (Text × ℕ)
    asked = wanted json cfg (some payload) ++ s.asked

    more : IsRouted (record s { asked = asked })
    more = IsRouted-more (wanted json cfg (some payload)) s r

    for_request :
        (req : OpenDoorRequest) (info : SwitchInfo) (c : ℕ)
        → Asks json cfg payload req info c
        → IsRouted (record s {
          engine = (on_recv_mqtt_message json cfg env payload s.engine).0;
          asked = asked;
        })
    for_request req info c asks =
        let Q : ℕ → Type 0 = WasAskedFor asked req.switch_id in
        let one = asks-wanted json cfg payload req info c asks in
        let this : Q c =
          subst (λ new. WasAskedFor (new ++ s.asked) req.switch_id c) (sym one)
            (inl (refl, refl)) in
        let fair : Q (u16 (i16 req.channel)) =
          subst Q (sym (narrowed json cfg env payload req info c asks)) this in
        let first : IsNextSwitch req.switch_id s.engine =
          (subst (All (λ (a : Text × ℕ). IsNextSwitch a.0 s.engine)) one next).0 in
        let meant = message_in_order json cfg env payload req info c s.engine asks sorted first in
        let new =
          connect_open-kept (IsFair Q) (IsSound Q) (own-IsSound Q) (new_handler-IsSound Q)
            (λ error. tt) env req fair (new_handler info) (new_handler-IsSound Q info) in
        record {
          doors =
              subst (λ (e : Engine × Reply). All (IsRoutedDoor asked) e.0.handlers) (sym meant)
                (meant-All (IsRoutedDoor asked) req env info
                  (subst
                    (λ k. IsSound (WasAskedFor asked k) (connect_open req env (new_handler info)).0)
                    (sym asks.own_id) new)
                  (λ h p.
                    open_on-kept (IsFair Q) (IsSound Q) (own-IsSound Q) (new_handler-IsSound Q)
                      (λ error. tt) env req fair h p)
                  (find req.switch_id s.engine.handlers) s.engine refl more.doors);
          commands = more.commands;
        }

act-IsRouted :
    (k : Text) (e : Event) (h h' : Handler) (s : Server)
    → is_own e ≡ true
    → find k s.engine.handlers ≡ some h
    → step e h ≡ some h'
    → IsRouted s
    → IsRouted (act k e h h' s)
unfolding act
act-IsRouted k e h h' s own found moved r =
    let Q : ℕ → Type 0 = WasAskedFor s.asked k in
    let sound = All-find (IsRoutedDoor s.asked) k h s.engine.handlers found r.doors in
    record {
      doors =
          All-adjust (IsRoutedDoor s.asked) k h' s.engine.handlers
            (step-kept (IsFair Q) (IsSound Q) (own-IsSound Q) e h h' moved (own-IsFair Q e own)
              sound)
            r.doors;
      commands =
          All-append (IsRoutedCommand s.asked) (sends k e h) s.sent
            (sends-IsJustified Q k (IsRoutedCommand s.asked) (λ q c w. w) e h sound) r.commands;
    }

hear-IsRouted :
    (json : Json) (cfg : SvrCfg) (event : BrokerEvent) (s : Server)
    → IsTable cfg.map_oid_switch_info
    → IsSorted s.engine.handlers
    → All (λ (a : Text × ℕ). IsNextSwitch a.0 s.engine) (asks_of json cfg event s.proxy)
    → IsRouted s
    → IsRouted (hear json cfg event s)
unfolding hear receive asks_of
hear-IsRouted json cfg (connected rc) s t sorted next r = record {
  doors = r.doors;
  commands = r.commands;
}
hear-IsRouted json cfg (delivered env message) s t sorted next r =
    let r' = deliver-IsRouted json cfg env (on_message message s.proxy) s t sorted next r in
    record { doors = r'.doors; commands = r'.commands }

ordered-IsRouted :
    (json : Json) (cfg : SvrCfg) (s : Server)
    → IsTable cfg.map_oid_switch_info
    → OrderedReach json cfg s
    → IsRouted s
unfolding new_server new_engine
ordered-IsRouted json cfg _ t ordered_begins = record { doors = tt; commands = tt }
ordered-IsRouted json cfg _ t (ordered_hears {s = s} event r next) =
    let safe = Reach-IsSafe json cfg s t (ordered-Reach json cfg s r) in
    hear-IsRouted json cfg event s t safe.well.sorted next (ordered-IsRouted json cfg s t r)
ordered-IsRouted json cfg _ t (ordered_acts {s = s} k event {h} {h'} r own found moved) =
    act-IsRouted k event h h' s own found moved (ordered-IsRouted json cfg s t r)

-- If each request was for a switch that had a handler or one with an id above all that had one,
-- then in every state that the server can come to, every command that it has sent to a switch was
-- for a door that a message had asked for, of this switch.
pub commands_routed :
    (json : Json) (cfg : SvrCfg) (s : Server)
    → IsTable cfg.map_oid_switch_info
    → OrderedReach json cfg s
    → All (λ (x : Sent). WasAskedFor s.asked x.switch_id x.channel) s.sent
commands_routed json cfg s t r = (ordered-IsRouted json cfg s t r).commands
