-- ===== src/Serving/Amid.antt =====
-- A message for a door whose thread waits, while other switches have events and get messages in
-- between.
use door_switch_svr.Prelude.{ℕ, ◌≤◌, List, [], ◌∷◌, ◌≡◌, refl, sym, ◌∙◌, ◌++◌, ap, some, arith}
use door_switch_svr.OrderedMap.{key_text}
use door_switch_svr.OrderedMap.Laws.{cmp_self}
use door_switch_svr.Param.{Text, SwitchInfo, SvrCfg}
use door_switch_svr.Poco.{Json}
use door_switch_svr.Controller.{WriteResult}
use door_switch_svr.Controller.Run.{opening, closing}
use door_switch_svr.Handler.Event.{Event, thread_turns}
use door_switch_svr.Svr.{delivered}
use door_switch_svr.Svr.Load.Loaded.{IsTable}
use door_switch_svr.Serving.{Server, hear, Reach, later, hears}
use door_switch_svr.Serving.Turns.{some-inj, run_door}
use door_switch_svr.Serving.Opens.{command_to}
use door_switch_svr.Serving.Again.{IsServing, Turns, first_turn, last_turns}
use door_switch_svr.Serving.Round.{Round, IsRound, message_opens_again}
use door_switch_svr.Serving.Apart.{events_of, sent_to, View, view, run_alone}
use door_switch_svr.Serving.Apart.Order.{run_events_alone}
use door_switch_svr.Serving.Among.{
  turns_of, run_door-append, run_door-events, view-IsServing, sent_to-cycle,
}
use door_switch_svr.Serving.Elsewhere.{Amid, Amid-alone}

-- The turns of a door's thread as events of its handler.
abbrev pub turn_events : ℕ → List (WriteResult × ℕ) → List Event
turn_events c [] = []
turn_events c ((result, now) ∷ ts) = thread_turns c result now ∷ turn_events c ts

events_of-turns :
    (k : Text) (c : ℕ) (ts : List (WriteResult × ℕ))
    → events_of k (turns_of k c ts) ≡ turn_events c ts
events_of-turns k c [] = refl
events_of-turns k c ((result, now) ∷ ts) = ground (arith, events_of-turns k c ts, cmp_self k)

abbrev pub task_turns : Turns → List (WriteResult × ℕ)
task_turns x = first_turn x ++ last_turns x

-- The turns of the thread amid all else come to what they come to alone.
pub Amid-door :
    (json : Json) (cfg : SvrCfg) (k : Text) (c : ℕ) (ts : List (WriteResult × ℕ)) (s s2 s' : Server)
    → IsTable cfg.map_oid_switch_info
    → Reach json cfg s
    → run_door k c ts s ≡ some s2
    → Amid json cfg k (turn_events c ts) s s'
    → (view k s' ≡ view k s2) × Reach json cfg s'
Amid-door json cfg k c ts s s2 s' table reach ran amid =
    let (ran', reach') = Amid-alone json cfg k (turn_events c ts) s s' table reach amid in
    let alone = run_events_alone k (turns_of k c ts) s s2 (run_door-events k c ts s s2 ran) in
    (
      some-inj
          (sym ran' ∙ ap (λ es. run_alone k es (view k s)) (sym (events_of-turns k c ts)) ∙ alone),
      reach',
    )

-- A message for a door whose thread waits, on a connected switch, opens the door and closes it
-- again, whatever happens to the other switches in the meantime. Let the message be let through by
-- the proxy and ask for the door, its channel at most 15. Let this switch have three events behind
-- it, turns of the door's thread, of which the first comes before the time of the task has run
-- out, and which write their commands in full; and let the other switches have any events in
-- between, and get any messages, each for a switch that has a handler or an id above all ids with
-- one (`Amid`). Then this switch has been sent one more command to open the door, and one to close it,
-- and no other; it is still connected, and the door's thread waits for its next task; and the server
-- is in a state that it can come to.
pub opens_meanwhile :
    (json : Json) (cfg : SvrCfg) (info : SwitchInfo) (c : ℕ) (x : Round) (s s' : Server)
    → c ≤ 15
    → IsTable cfg.map_oid_switch_info
    → Reach json cfg s
    → IsServing info.oid c info.type s
    → IsRound json cfg s.proxy info c x
    → Amid json cfg info.oid
        (turn_events c (task_turns x.turns))
        (hear json cfg (delivered x.env x.message) s)
        s'
    → let k = info.oid in
      (sent_to k s'.sent ≡ command_to k c closing ∷ command_to k c opening ∷ sent_to k s.sent)
      × IsServing k c info.type s'
      × Reach json cfg s'
opens_meanwhile json cfg info c x s s' small table reach serving round amid =
    let k = info.oid in
    let heard = hear json cfg (delivered x.env x.message) s in
    let (s1, s2, _, first, _, _, _, last, sent, serving', _) =
      message_opens_again json cfg info c small s x round serving reach in
    let ran =
      run_door-append k c (first_turn x.turns) (last_turns x.turns) heard s1 s2 first last in
    let (seen, reach') =
      Amid-door json cfg k c (task_turns x.turns) heard s2 s' table
        (later reach (hears (delivered x.env x.message))) ran amid in
    (
      ap (λ (v : View). v.1) seen ∙ sent_to-cycle k c s2.sent s.sent sent,
      view-IsServing k c info.type s2 s' seen serving',
      reach',
    )
