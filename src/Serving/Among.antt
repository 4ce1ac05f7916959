-- ===== src/Serving/Among.antt =====
-- A message for a door whose thread waits, while the handlers of other switches act in between.
use door_switch_svr.Prelude.{
  ℕ, ◌≤◌, List, [], ◌∷◌, ◌≡◌, sym, ◌∙◌, ◌++◌, ap, subst, inl, inr, some, Option-cases, arith,
}
use door_switch_svr.OrderedMap.{key_text}
use door_switch_svr.OrderedMap.Laws.{cmp_self}
use door_switch_svr.Param.{Text, SwitchType, SwitchInfo, SvrCfg}
use door_switch_svr.Poco.{Json}
use door_switch_svr.Controller.{WriteResult}
use door_switch_svr.Controller.Run.{Request, opening, closing}
use door_switch_svr.Handler.Event.{Event, thread_turns, none-ne-some}
use door_switch_svr.Svr.{delivered}
use door_switch_svr.Serving.{Sent, Server, hear, act_on, Reach}
use door_switch_svr.Serving.Turns.{and_then, some-inj, run_door}
use door_switch_svr.Serving.Opens.{command_to}
use door_switch_svr.Serving.Again.{IsServing, first_turn, last_turns}
use door_switch_svr.Serving.Round.{Round, IsRound, message_opens_again}
use door_switch_svr.Serving.Apart.{run_events, events_of, sent_to, View, view, run_alone}
use door_switch_svr.Serving.Apart.Order.{run_events_alone}

-- The turns of a door's thread as events of its switch.
abbrev pub turns_of : Text → ℕ → List (WriteResult × ℕ) → List (Text × Event)
turns_of k c [] = []
turns_of k c ((result, now) ∷ ts) = (k, thread_turns c result now) ∷ turns_of k c ts

pub run_door-events :
    (k : Text) (c : ℕ) (ts : List (WriteResult × ℕ)) (s s' : Server)
    → run_door k c ts s ≡ some s'
    → run_events (turns_of k c ts) s ≡ some s'
unfolding run_door
run_door-events k c [] s s' ran = ran
run_door-events k c ((result, now) ∷ ts) s s' ran =
    elim (Option-cases (act_on k (thread_turns c result now) s)) [
      | inl stuck ↦ absurd (none-ne-some (sym (rw (run_door, stuck)) ∙ ran))
      | inr (s1, one) ↦
          ap (and_then (run_events (turns_of k c ts))) one
          ∙ run_door-events k c ts s1 s' (sym (rw (run_door, one)) ∙ ran)
    ]

pub run_door-append :
    (k : Text) (c : ℕ) (ts us : List (WriteResult × ℕ)) (s s1 s2 : Server)
    → run_door k c ts s ≡ some s1
    → run_door k c us s1 ≡ some s2
    → run_door k c (ts ++ us) s ≡ some s2
unfolding run_door
run_door-append k c [] us s s1 s2 ran ran' =
    subst (λ t. run_door k c us t ≡ some s2) (sym (some-inj {a = s} {b = s1} ran)) ran'
run_door-append k c ((result, now) ∷ ts) us s s1 s2 ran ran' =
    elim (Option-cases (act_on k (thread_turns c result now) s)) [
      | inl stuck ↦ absurd (none-ne-some (sym (rw (run_door, stuck)) ∙ ran))
      | inr (t, one) ↦
          rw (run_door, one)
            (run_door-append k c ts us t s1 s2 (sym (rw (run_door, one)) ∙ ran) ran')
    ]

-- What a door is, in the server, is in the view of its switch.
pub view-IsServing :
    (k : Text) (c : ℕ) (type : SwitchType) (s t : Server)
    → view k t ≡ view k s
    → IsServing k c type s
    → IsServing k c type t
view-IsServing k c type s t same i =
    let at = ap (λ (v : View). v.0) same in
    let (h, found, on) = i.online in
    record {
      pc = i.pc;
      waits = i.waits;
      has = record {
        handler = i.has.handler;
        at = at ∙ i.has.at;
        of_type = i.has.of_type;
        door = i.has.door;
        door_at = i.has.door_at;
        worker = i.has.worker;
        channel_of = i.has.channel_of;
      };
      online = (h, at ∙ found, on);
    }

sent_to-command :
    (k : Text) (c : ℕ) (r : Request) (sent : List Sent)
    → sent_to k (command_to k c r ∷ sent) ≡ command_to k c r ∷ sent_to k sent
sent_to-command k c r sent = ground (arith, cmp_self k)

pub sent_to-cycle :
    (k : Text) (c : ℕ) (new old : List Sent)
    → new ≡ command_to k c closing ∷ command_to k c opening ∷ old
    → sent_to k new ≡ command_to k c closing ∷ command_to k c opening ∷ sent_to k old
sent_to-cycle k c new old e =
    ap (sent_to k) e
    ∙ sent_to-command k c closing (command_to k c opening ∷ old)
    ∙ ap (λ xs. command_to k c closing ∷ xs) (sent_to-command k c opening old)

-- A message for a door whose thread waits, on a connected switch, opens the door and closes it again,
-- whatever the handlers of the other switches do in the meantime. Let the message be let through
-- by the proxy and ask for the door, its channel at most 15; let the events behind it be, for this
-- switch, three turns of the door's thread, of which the first comes before the time of the task has
-- run out, and which write their commands in full; and let these events be defined. Then this switch
-- has been sent one more command to open the door, and one to close it, and no other; it is still
-- connected, and the door's thread waits for its next task.
opens_among_others :
    (json : Json) (cfg : SvrCfg) (info : SwitchInfo) (c : ℕ) (x : Round)
    (events : List (Text × Event)) (s s' : Server)
    → c ≤ 15
    → Reach json cfg s
    → IsServing info.oid c info.type s
    → IsRound json cfg s.proxy info c x
    → events_of info.oid events
      ≡ events_of info.oid (turns_of info.oid c (first_turn x.turns ++ last_turns x.turns))
    → run_events events (hear json cfg (delivered x.env x.message) s) ≡ some s'
    → let k = info.oid in
      (sent_to k s'.sent ≡ command_to k c closing ∷ command_to k c opening ∷ sent_to k s.sent)
      × IsServing k c info.type s'
opens_among_others json cfg info c x events s s' small reach serving round same ran =
    let k = info.oid in
    let heard = hear json cfg (delivered x.env x.message) s in
    let (s1, s2, _, first, _, _, _, last, sent, serving', _) =
      message_opens_again json cfg info c small s x round serving reach in
    let turns = turns_of k c (first_turn x.turns ++ last_turns x.turns) in
    let alone =
      run_door-events k c (first_turn x.turns ++ last_turns x.turns) heard s2
        (run_door-append k c (first_turn x.turns) (last_turns x.turns) heard s1 s2 first last) in
    let seen : view k s' ≡ view k s2 = some-inj (
      sym (run_events_alone k events heard s' ran)
      ∙ ap (λ es. run_alone k es (view k heard)) same
      ∙ run_events_alone k turns heard s2 alone) in
    (
      ap (λ (v : View). v.1) seen ∙ sent_to-cycle k c s2.sent s.sent sent,
      view-IsServing k c info.type s2 s' seen serving',
    )
