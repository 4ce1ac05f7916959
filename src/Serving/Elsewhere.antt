-- ===== src/Serving/Elsewhere.antt =====
-- Messages and events in any order, seen from one switch.
use door_switch_svr.Prelude.{
  ℕ, true, arith, List, [], ◌∷◌, ◌≡◌, ◌≢◌, refl, sym, ◌∙◌, ap, subst, inl, inr, Option, none, some,
  All,
}
use door_switch_svr.OrderedMap.{key_text, find}
use door_switch_svr.OrderedMap.Laws.{IsSorted, find-insert_ne, find-adjust_ne}
use door_switch_svr.Prelude.Int.{i16}
use door_switch_svr.Param.{Text, SwitchInfo, SvrCfg}
use door_switch_svr.Poco.{Json}
use door_switch_svr.Handler.{Handler, new_handler, open_door}
use door_switch_svr.Handler.Event.{Event, opens, step}
use door_switch_svr.Engine.{
  OpenDoorRequest, Engine, Surroundings, Reply, connect_open, open_on, on_recv_mqtt_message,
}
use door_switch_svr.Engine.Request.{Asks, change_needs_request}
use door_switch_svr.Engine.Known.{recv-known}
use door_switch_svr.Engine.Every.{request-Asks}
use door_switch_svr.Engine.InOrder.{IsNextSwitch, meant_handler, message_in_order}
use door_switch_svr.Mqtt.{MosquittoMessage, on_message}
use door_switch_svr.Svr.{BrokerEvent, connected, delivered, receive, deliver}
use door_switch_svr.Svr.Load.Loaded.{IsTable}
use door_switch_svr.Serving.{
  Server, wanted, asks_of, hear, act_on, is_own, sends, Reach, later, hears,
}
use door_switch_svr.Serving.Hear.{asks-wanted, heard-engine}
use door_switch_svr.Serving.Invariant.{Reach-IsSafe}
use door_switch_svr.Serving.Turns.{Reach-act_on}
use door_switch_svr.Serving.Apart.{sent_to, view, run_alone, act_on_own, act_on_other}

-- The doors that are asked for are of other switches, which have a handler or an id above all ids
-- with one.
abbrev pub IsElsewhere : Text → Engine → List (Text × ℕ) → Type 0
IsElsewhere k e = All (λ (a : Text × ℕ). IsNextSwitch a.0 e × (a.0 ≢ k))

module _ (k : Text) where
  meant_handler-other :
      (req : OpenDoorRequest) (env : Surroundings) (info : SwitchInfo) (o : Option Handler)
      (e : Engine)
      → info.oid ≡ req.switch_id
      → req.switch_id ≢ k
      → find k (meant_handler req env info o e).0.handlers ≡ find k e.handlers
  meant_handler-other req env info none e own_id ne =
      let h = (connect_open req env (new_handler info)).0 in
      let there = find-insert_ne info.oid k h e.handlers (subst (λ i. i ≢ k) (sym own_id) ne) in
      ground (arith, there)
  meant_handler-other req env info (some h) e own_id ne =
      find-adjust_ne req.switch_id k (λ _. (open_on req env h).0) e.handlers ne

  module _ (json : Json) (cfg : SvrCfg) (table : IsTable cfg.map_oid_switch_info) where
    deliver-other :
        (env : Surroundings) (o : Option Text) (e : Engine)
        → IsSorted e.handlers
        → IsElsewhere k e (wanted json cfg o)
        → find k (deliver json cfg env o e).handlers ≡ find k e.handlers
    unfolding deliver
    deliver-other env none e sorted away = refl
    deliver-other env (some payload) e sorted away =
        elim (change_needs_request json cfg env payload e) [
          | inl same ↦ ap (λ (e' : Engine). find k e'.handlers) same
          | inr (req, info, reads, found, l, u) ↦
              let (c, asks) = request-Asks json cfg payload req info table reads found l u in
              let (next, ne) =
                (subst (IsElsewhere k e) (asks-wanted json cfg payload req info c asks) away).0 in
              ap (λ (r : Engine × Reply). find k r.0.handlers)
                (message_in_order json cfg env payload req info c e asks sorted next)
              ∙ meant_handler-other req env info (find req.switch_id e.handlers) e asks.own_id ne
        ]

    -- A message for other switches leaves what the server has of this one as it was.
    pub hear-other :
        (event : BrokerEvent) (s : Server)
        → IsSorted s.engine.handlers
        → IsElsewhere k s.engine (asks_of json cfg event s.proxy)
        → view k (hear json cfg event s) ≡ view k s
    unfolding hear receive asks_of
    hear-other (connected rc) s sorted away = refl
    hear-other (delivered env message) s sorted away =
        let same = deliver-other env (on_message message s.proxy) s.engine sorted away in
        λ i. (same i, (view k s).1)

-- A run of the server in which one switch, which has a handler, has these events, with the messages for
-- it among them, while other switches have any events, and get any messages that keep the order of the
-- ids.
pub data Amid (json : Json) (cfg : SvrCfg) (k : Text) : List Event → Server → Server → Type 0 where
  ends : {s : Server} → Amid json cfg k [] s s
  own_acts :
      {es : List Event} {s t u : Server} (e : Event)
      → is_own e ≡ true
      → act_on k e s ≡ some t
      → Amid json cfg k es t u
      → Amid json cfg k (e ∷ es) s u
  own_hears :
      {es : List Event} {s u : Server} (env : Surroundings) (message : MosquittoMessage)
      (payload : Text) (req : OpenDoorRequest) (info : SwitchInfo) (c : ℕ) (h : Handler)
      → on_message message s.proxy ≡ some payload
      → Asks json cfg payload req info c
      → req.switch_id ≡ k
      → find k s.engine.handlers ≡ some h
      → Amid json cfg k es (hear json cfg (delivered env message) s) u
      → Amid json cfg k (opens (i16 req.channel) req.close_after env.now ∷ es) s u
  other_acts :
      {es : List Event} {s t u : Server} (j : Text) (e : Event)
      → j ≢ k
      → is_own e ≡ true
      → act_on j e s ≡ some t
      → Amid json cfg k es t u
      → Amid json cfg k es s u
  other_hears :
      {es : List Event} {s u : Server} (event : BrokerEvent)
      → IsElsewhere k s.engine (asks_of json cfg event s.proxy)
      → Amid json cfg k es (hear json cfg event s) u
      → Amid json cfg k es s u

hear-own :
    (json : Json) (cfg : SvrCfg) (k : Text) (es : List Event) (env : Surroundings)
    (message : MosquittoMessage) (payload : Text) (req : OpenDoorRequest) (info : SwitchInfo)
    (c : ℕ) (h : Handler) (s : Server)
    → on_message message s.proxy ≡ some payload
    → Asks json cfg payload req info c
    → req.switch_id ≡ k
    → find k s.engine.handlers ≡ some h
    → run_alone k (opens (i16 req.channel) req.close_after env.now ∷ es) (view k s)
      ≡ run_alone k es (view k (hear json cfg (delivered env message) s))
unfolding step sends
hear-own json cfg k es env message payload req info c h s let_through asks named at =
    let (engine, sent, _) = heard-engine json cfg env message payload s let_through in
    let h' = (open_door (i16 req.channel) req.close_after env.now h).0 in
    let here : find k (on_recv_mqtt_message json cfg env payload s.engine).0.handlers ≡ some h' =
      subst (λ j. find j (on_recv_mqtt_message json cfg env payload s.engine).0.handlers ≡ some h')
        named
        (recv-known json cfg env payload req info c asks s.engine h
          (subst (λ j. find j s.engine.handlers ≡ some h) (sym named) at)) in
    let there = ap (λ (e : Engine). find k e.handlers) engine ∙ here in
    ap
      (λ o.
        run_alone k (opens (i16 req.channel) req.close_after env.now ∷ es) (o, sent_to k s.sent))
      at
    ∙ sym (λ i. run_alone k es (there i, sent_to k (sent i)))

-- Seen from the switch, such a run is a run of its own events; and its steps are steps of the server.
pub Amid-alone :
    (json : Json) (cfg : SvrCfg) (k : Text) (es : List Event) (s u : Server)
    → IsTable cfg.map_oid_switch_info
    → Reach json cfg s
    → Amid json cfg k es s u
    → (run_alone k es (view k s) ≡ some (view k u)) × Reach json cfg u
Amid-alone json cfg k _ s _ table r ends = (refl, r)
Amid-alone json cfg k _ s u table r (own_acts {es = es} {t = t} e own one rest) =
    let (ran, r') =
      Amid-alone json cfg k es t u table (Reach-act_on json cfg k e s t own r one) rest in
    (act_on_own e k es s t one ∙ ran, r')
Amid-alone json cfg k _ s u table r
      (own_hears {es = es} env message payload req info c h let_through asks named at rest) =
    let t = hear json cfg (delivered env message) s in
    let (ran, r') =
      Amid-alone json cfg k es t u table (later r (hears (delivered env message))) rest in
    (hear-own json cfg k es env message payload req info c h s let_through asks named at ∙ ran, r')
Amid-alone json cfg k es s u table r (other_acts {t = t} j e ne own one rest) =
    let (ran, r') =
      Amid-alone json cfg k es t u table (Reach-act_on json cfg j e s t own r one) rest in
    (ap (run_alone k es) (sym (act_on_other e j k s t ne one)) ∙ ran, r')
Amid-alone json cfg k es s u table r (other_hears event away rest) =
    let t = hear json cfg event s in
    let sorted = (Reach-IsSafe json cfg s table r).well.sorted in
    let (ran, r') = Amid-alone json cfg k es t u table (later r (hears event)) rest in
    (ap (run_alone k es) (sym (hear-other k json cfg table event s sorted away)) ∙ ran, r')
