-- ===== src/Serving/Turns.antt =====
-- The turns of the thread of one door inside the server: they are the turns of the thread alone, and the
-- commands that it sends are those that the server sends.
use door_switch_svr.Prelude.{
  ℕ, ◌≤◌, List, [], ◌∷◌, ◌++◌, ◌≡◌, refl, sym, ◌∙◌, ap, subst, inl, inr, true, false, Option, none,
  some, Option-cases,
}
use door_switch_svr.OrderedMap.{key_ℕ, key_text, find}
use door_switch_svr.OrderedMap.Laws.{find-adjust_self}
use door_switch_svr.Param.{Text, SwitchType, SwitchInfo, SvrCfg}
use door_switch_svr.Poco.{Json}
use door_switch_svr.Controller.{Controller, WriteResult}
use door_switch_svr.Controller.Defined.{run_turn-some}
use door_switch_svr.Controller.Kept.{turn-kept, turn-worker}
use door_switch_svr.Controller.Run.{Worker, Request, turn, overflows}
use door_switch_svr.Handler.{Handler}
use door_switch_svr.Handler.Defined.{thread_turn-door}
use door_switch_svr.Handler.Event.{Event, thread_turns, step, none-ne-some}
use door_switch_svr.Serving.{
  act_on, act_found, act_moved, Sent, Server, act, sends, sends_found, sent_by, is_own, Reach,
  later, acts,
}

pub some-inj : {A : Type 0} {a b : A} → some a ≡ some b → a ≡ b
some-inj e = cc

abbrev pub and_then : {A B : Type 0} → (A → Option B) → Option A → Option B
and_then f none = none
and_then f (some a) = f a

-- The turns of a door's thread, with the results of their writes and their times.
unfoldable pub run_door : Text → ℕ → List (WriteResult × ℕ) → Server → Option Server
unfolding act_on
run_door k n [] s = some s
run_door k n ((result, now) ∷ ts) s = elim (act_on k (thread_turns n result now) s) [
  | none ↦ none
  | some s' ↦ run_door k n ts s'
]

-- The door is there, with this worker and channel, and its switch has this type.
pub record HasDoor (k : Text) (n channel : ℕ) (type : SwitchType) (w : Worker) (s : Server)
    : Type 0 where
  pub handler : Handler
  pub at : find k s.engine.handlers ≡ some handler
  pub of_type : handler.switch_info.type ≡ type
  pub door : Controller
  pub door_at : find n handler.controllers ≡ some door
  pub worker : door.worker ≡ w
  pub channel_of : door.channel ≡ channel

-- What the thread alone sends in some turns, as commands, newest first.
abbrev pub thread_sends :
    Text → ℕ → SwitchType → List (WriteResult × ℕ) → Worker → List Sent → List Sent
thread_sends k channel type [] w sent = sent
thread_sends k channel type ((result, now) ∷ ts) w sent =
    let (w', request) = turn type now w in
    thread_sends k channel type ts w' (sent_by k channel request ++ sent)

abbrev pub thread_after : SwitchType → List (WriteResult × ℕ) → Worker → Worker
thread_after type [] w = w
thread_after type ((result, now) ∷ ts) w = thread_after type ts (turn type now w).0

-- No turn of the thread alone overflows.
abbrev pub AreCalm : SwitchType → List (WriteResult × ℕ) → Worker → Type 0
AreCalm type [] w = Unit {0}
AreCalm type ((result, now) ∷ ts) w =
    (overflows now w ≡ false) × AreCalm type ts (turn type now w).0

sends-door :
    (k : Text) (n : ℕ) (result : WriteResult) (now : ℕ) (h : Handler) (d : Controller)
    → find n h.controllers ≡ some d
    → sends k (thread_turns n result now) h
      ≡ sent_by k d.channel (turn h.switch_info.type now d.worker).1
unfolding sends sends_found
sends-door k n result now h d at = ap (sends_found k now h) at

module _ (k : Text) (n channel : ℕ) (type : SwitchType) (lower : 1 ≤ channel)
    (upper : channel ≤ 15) where
  act_on-door :
      (result : WriteResult) (now : ℕ) (w : Worker) (s : Server)
      → overflows now w ≡ false
      → HasDoor k n channel type w s
      → (s' : Server) × (act_on k (thread_turns n result now) s ≡ some s')
        × HasDoor k n channel type (turn type now w).0 s'
        × (s'.sent ≡ sent_by k channel (turn type now w).1 ++ s.sent)
  unfolding act_on act_found act_moved step act
  act_on-door result now w s calm has =
      let h = has.handler in
      let d = has.door in
      let e = thread_turns n result now in
      let same : turn h.switch_info.type now d.worker ≡ turn type now w =
        ap (λ ty. turn ty now d.worker) has.of_type ∙ ap (turn type now) has.worker in
      let calm' : overflows now d.worker ≡ false =
        subst (λ v. overflows now v ≡ false) (sym has.worker) calm in
      let range : (1 ≤ d.channel) × (d.channel ≤ 15) = (
        subst (λ c. 1 ≤ c) (sym has.channel_of) lower,
        subst (λ c. c ≤ 15) (sym has.channel_of) upper,
      ) in
      let ((d', raised), made) = run_turn-some h.switch_info.type result now d calm' (inr range) in
      let (h', moved, at', info) = thread_turn-door n result now h d d' raised has.door_at made in
      let (_, channel_kept) = turn-kept h.switch_info.type result now d d' raised made in
      (
        act k e h h' s,
        rw (act_on, has.at) (ap (λ o. act_moved k e h o s) moved),
        record {
          handler = h';
          at = find-adjust_self k (λ _. h') s.engine.handlers h has.at;
          of_type = ap (λ (i : SwitchInfo). i.type) info ∙ has.of_type;
          door = d';
          door_at = at';
          worker =
              turn-worker h.switch_info.type result now d d' raised made
              ∙ ap (λ (r : Worker × Option Request). r.0) same;
          channel_of = channel_kept ∙ has.channel_of;
        },
        ap (λ xs. xs ++ s.sent)
            (sends-door k n result now h d has.door_at
              ∙ ap (λ c. sent_by k c (turn h.switch_info.type now d.worker).1) has.channel_of
              ∙ ap (λ (r : Worker × Option Request). sent_by k channel r.1) same),
      )

  -- The turns of a door's thread in the server, whatever becomes of their writes, are those of the
  -- thread alone, if none of them overflows: all are defined, the door's thread comes to the state that it comes to alone, and
  -- the server sends what the thread sends alone.
  pub run_door-thread :
      (ts : List (WriteResult × ℕ)) (w : Worker) (s : Server)
      → AreCalm type ts w
      → HasDoor k n channel type w s
      → (s' : Server) × (run_door k n ts s ≡ some s')
        × HasDoor k n channel type (thread_after type ts w) s'
        × (s'.sent ≡ thread_sends k channel type ts w s.sent)
  unfolding run_door
  run_door-thread [] w s calm has = (s, refl, has, refl)
  run_door-thread ((result, now) ∷ ts) w s calm has =
      let (s1, one, has1, sent1) = act_on-door result now w s calm.0 has in
      let (s2, rest, has2, sent2) = run_door-thread ts (turn type now w).0 s1 calm.1 has1 in
      (
        s2,
        rw (run_door, one) rest,
        has2,
        sent2 ∙ ap (thread_sends k channel type ts (turn type now w).0) sent1,
      )

-- What the handlers do leaves the proxy as it was.
act_moved-proxy :
    (k : Text) (e : Event) (h : Handler) (o : Option Handler) (s s' : Server)
    → act_moved k e h o s ≡ some s'
    → s'.proxy ≡ s.proxy
unfolding act_moved act
act_moved-proxy k e h none s s' ran = absurd (none-ne-some ran)
act_moved-proxy k e h (some h') s s' ran = ap (λ (t : Server). t.proxy) (sym (some-inj ran))

act_found-proxy :
    (k : Text) (e : Event) (o : Option Handler) (s s' : Server)
    → act_found k e o s ≡ some s'
    → s'.proxy ≡ s.proxy
unfolding act_found
act_found-proxy k e none s s' ran = ap (λ (t : Server). t.proxy) (sym (some-inj ran))
act_found-proxy k e (some h) s s' ran = act_moved-proxy k e h (step e h) s s' ran

pub act_on-proxy :
    (k : Text) (e : Event) (s s' : Server) → act_on k e s ≡ some s' → s'.proxy ≡ s.proxy
unfolding act_on
act_on-proxy k e s s' ran = act_found-proxy k e (find k s.engine.handlers) s s' ran

pub run_door-proxy :
    (k : Text) (n : ℕ) (ts : List (WriteResult × ℕ)) (s s' : Server)
    → run_door k n ts s ≡ some s'
    → s'.proxy ≡ s.proxy
unfolding run_door act_on
run_door-proxy k n [] s s' ran = ap (λ (t : Server). t.proxy) (sym (some-inj ran))
run_door-proxy k n ((result, now) ∷ ts) s s' ran =
    let e = thread_turns n result now in
    elim (Option-cases (act_on k e s)) [
      | inl stuck ↦ absurd (none-ne-some (sym (rw (run_door, stuck)) ∙ ran))
      | inr (s1, one) ↦
          run_door-proxy k n ts s1 s' (sym (rw (run_door, one)) ∙ ran)
          ∙ act_found-proxy k e (find k s.engine.handlers) s s1 one
    ]

module _ (json : Json) (cfg : SvrCfg) (k : Text) where
  act_moved-Reach :
      (e : Event) (h : Handler) (o : Option Handler) (s s' : Server)
      → is_own e ≡ true
      → find k s.engine.handlers ≡ some h
      → step e h ≡ o
      → act_moved k e h o s ≡ some s'
      → Reach json cfg s
      → Reach json cfg s'
  unfolding act_moved
  act_moved-Reach e h none s s' own at moved ran r = absurd (none-ne-some ran)
  act_moved-Reach e h (some h') s s' own at moved ran r =
      subst (Reach json cfg) (some-inj ran) (later r (acts k e own at moved))

  act_found-Reach :
      (e : Event) (o : Option Handler) (s s' : Server)
      → is_own e ≡ true
      → find k s.engine.handlers ≡ o
      → act_found k e o s ≡ some s'
      → Reach json cfg s
      → Reach json cfg s'
  unfolding act_found
  act_found-Reach e none s s' own at ran r = subst (Reach json cfg) (some-inj ran) r
  act_found-Reach e (some h) s s' own at ran r =
      act_moved-Reach e h (step e h) s s' own at refl ran r

  -- An event of a handler is a step of the server.
  pub Reach-act_on :
      (e : Event) (s s' : Server)
      → is_own e ≡ true
      → Reach json cfg s
      → act_on k e s ≡ some s'
      → Reach json cfg s'
  unfolding act_on
  Reach-act_on e s s' own r ran = act_found-Reach e (find k s.engine.handlers) s s' own refl ran r

  -- The turns of a door's thread are steps of the server.
  pub Reach-run_door :
      (n : ℕ) (ts : List (WriteResult × ℕ)) (s s' : Server)
      → Reach json cfg s
      → run_door k n ts s ≡ some s'
      → Reach json cfg s'
  unfolding run_door
  Reach-run_door n [] s s' r ran = subst (Reach json cfg) (some-inj ran) r
  Reach-run_door n ((result, now) ∷ ts) s s' r ran =
      let e = thread_turns n result now in
      elim (Option-cases (act_on k e s)) [
        | inl stuck ↦ absurd (none-ne-some (sym (rw (run_door, stuck)) ∙ ran))
        | inr (s1, one) ↦
            Reach-run_door n ts s1 s' (Reach-act_on e s s1 refl r one)
              (sym (rw (run_door, one)) ∙ ran)
      ]
