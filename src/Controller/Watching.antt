-- ===== src/Controller/Watching.antt =====
-- The watch over the board's replies against what it is for: the oldest command without an answer.
use door_switch_svr.Prelude.{
  ℕ, suc, ◌+◌, ◌<◌, ◌≤◌, List, [], ◌∷◌, ◌++◌, ◌≡◌, map, refl, Bool, true, false, ◌||◌, arith, leb,
  ◌==◌, if◌then◌else◌, length, All,
}
use door_switch_svr.Controller.Watchdog.{
  Deadline, never, due, AsioCall, set_deadline, async_wait, async_read, reply_limit,
}
use door_switch_svr.Controller.{
  Controller, WriteResult, new_controller, init, send_data, read_ret, check_deadline,
}

-- What reaches one controller: a command to write with its result, the end of the read, and a call of
-- the timer's handler, because the deadline has passed or because it was moved.
pub data Event : Type 0 where
  writes : List ℕ → WriteResult → ℕ → Event
  replies : Bool → ℕ → Event
  checks : ℕ → Event

unfoldable pub step : Event → Controller → Controller × Bool
unfolding send_data read_ret check_deadline
step (writes bytes result now) c = send_data bytes result now c
step (replies ec size) c = read_ret ec size c
step (checks now) c = check_deadline now c

-- The controller after a list of events, and the errors raised, in order.
unfoldable pub run : List Event → Controller → Controller × List Bool
run [] c = (c, [])
run (e ∷ es) c = let (c', raised) = step e c in let (c'', rest) = run es c' in (c'', raised ∷ rest)

abbrev pub drop_first : List ℕ → List ℕ
drop_first [] = []
drop_first (s ∷ p) = p

abbrev pub is_written : List ℕ → WriteResult → Bool
is_written bytes result = if result.error then false else leb (length bytes) result.len

-- The specification: the times of the commands that were written and have no answer yet, oldest first,
-- and whether an event is an error. A reply answers the oldest command; a timeout gives up all.
abbrev pub spec_step : Event → List ℕ → List ℕ × Bool
spec_step (writes bytes result now) p =
    if is_written bytes result then (p ++ (now ∷ []), false) else (p, true)
spec_step (replies ec size) p = (drop_first p, ec || (size == 0))
spec_step (checks now) [] = ([], false)
spec_step (checks now) (s ∷ p) = if leb (s + reply_limit) now then ([], true) else (s ∷ p, false)

abbrev pub spec_run : List Event → List ℕ → List ℕ × List Bool
spec_run [] p = (p, [])
spec_run (e ∷ es) p =
    let (p', raised) = spec_step e p in let (p'', rest) = spec_run es p' in (p'', raised ∷ rest)

abbrev pub deadline_of : List ℕ → Deadline
deadline_of [] = never
deadline_of (s ∷ p) = due (s + reply_limit)

-- No reply comes while two commands or more have no answer.
abbrev pub AnswersLast : Event → List ℕ → Type 0
AnswersLast (writes bytes result now) p = Unit {0}
AnswersLast (replies ec size) p = drop_first p ≡ []
AnswersLast (checks now) p = Unit {0}

abbrev pub AllAnswerLast : List Event → List ℕ → Type 0
AllAnswerLast [] p = Unit {0}
AllAnswerLast (e ∷ es) p = AnswersLast e p × AllAnswerLast es (spec_step e p).0

step_refines :
    (e : Event) (c : Controller) (p : List ℕ)
    → AnswersLast e p
    → c.watch.deadline ≡ deadline_of p
    → ((step e c).0.watch.deadline ≡ deadline_of (spec_step e p).0)
      × ((step e c).1 ≡ (spec_step e p).1)
unfolding step
step_refines (writes bytes result now) c [] a h = ground arith
step_refines (writes bytes result now) c (s ∷ p) a h = ground arith
step_refines (replies ec size) c p a h = rw a (refl, refl)
step_refines (checks now) c [] a h = ground arith
step_refines (checks now) c (s ∷ p) a h = ground arith

-- From a controller whose deadline is that of its oldest command without an answer, or infinite
-- with none, every sequence of writes, replies and timer calls in which no reply comes while two
-- commands or more have no answer raises the errors that the specification raises, event by event,
-- and leaves the deadline thirty seconds after the oldest command without an answer, or at
-- infinity if there is none.
pub watch_refines :
    (es : List Event) (c : Controller) (p : List ℕ)
    → AllAnswerLast es p
    → c.watch.deadline ≡ deadline_of p
    → ((run es c).0.watch.deadline ≡ deadline_of (spec_run es p).0)
      × ((run es c).1 ≡ (spec_run es p).1)
unfolding run
watch_refines [] c p a h = (h, refl)
watch_refines (e ∷ es) c p a h =
    let (d, r) = step_refines e c p a.0 h in
    let (d', rs) = watch_refines es (step e c).0 (spec_step e p).0 a.1 d in ground arith

-- With an infinite deadline no call of the timer's handler is an error.
checks_off :
    (times : List ℕ) (c : Controller)
    → c.watch.deadline ≡ never
    → All (λ b. b ≡ false) (run (map checks times) c).1
unfolding run step
checks_off [] c h = tt
checks_off (t ∷ times) c h =
    let same : (step (checks t) c).0.watch.deadline ≡ never = ground arith in
    (ground arith, checks_off times (step (checks t) c).0 same)

-- The first reply ends the watch over two commands. From a controller that waits for no answer, let two
-- commands be written in full and one reply come. Then the second command has no answer, and by the
-- specification it is an error once thirty seconds have gone; but the deadline is infinite, and
-- timer calls, at any times, raise no error.
pub one_reply_ends_watch :
    (first second : List ℕ) (r1 r2 : WriteResult) (s1 s2 size : ℕ) (times : List ℕ) (now : ℕ)
    (c : Controller)
    → c.watch.deadline ≡ never
    → is_written first r1 ≡ true
    → is_written second r2 ≡ true
    → s2 + reply_limit ≤ now
    → let es = writes first r1 s1 ∷ writes second r2 s2 ∷ replies false (suc size) ∷ [] in
      ((spec_run es []).0 ≡ s2 ∷ [])
      × ((spec_step (checks now) (spec_run es []).0).1 ≡ true)
      × ((run es c).0.watch.deadline ≡ never)
      × All (λ b. b ≡ false) (run (map checks times) (run es c).0).1
unfolding run step
one_reply_ends_watch first second r1 r2 s1 s2 size times now c idle w1 w2 late =
    (rw (w1, w2) refl, rw (w1, w2) (ground (arith, late)), refl, checks_off times _ refl)

-- Writes of any result, and timer calls before the time `t`.
abbrev pub IsQuiet : ℕ → Event → Type 0
IsQuiet t (writes bytes result now) = Unit {0}
IsQuiet t (replies ec size) = ⊥
IsQuiet t (checks now) = now < t

step_quiet :
    (e : Event) (c : Controller) (t : ℕ)
    → IsQuiet t e
    → c.watch.deadline ≡ due t
    → (step e c).0.watch.deadline ≡ due t
unfolding step
step_quiet (writes bytes result now) c t q h = ground arith
step_quiet (replies ec size) c t q h = absurd q
step_quiet (checks now) c t q h = ground arith

run_quiet :
    (es : List Event) (c : Controller) (t : ℕ)
    → All (IsQuiet t) es
    → c.watch.deadline ≡ due t
    → (run es c).0.watch.deadline ≡ due t
unfolding run
run_quiet [] c t q h = h
run_quiet (e ∷ es) c t q h = run_quiet es (step e c).0 t q.1 (step_quiet e c t q.0 h)

-- If a command is written at time `s` with none outstanding, and then come only other writes, of any
-- result, and timer calls within thirty seconds of `s`, then a timer call raises the error exactly if
-- it comes thirty seconds after `s` or later: no later command moves the deadline.
pub unanswered_raises :
    (c : Controller) (bytes : List ℕ) (result : WriteResult) (s now : ℕ) (es : List Event)
    → c.watch.deadline ≡ never
    → is_written bytes result ≡ true
    → All (IsQuiet (s + reply_limit)) es
    → (check_deadline now (run es (send_data bytes result s c).0).0).1 ≡ leb (s + reply_limit) now
unfolding check_deadline send_data
unanswered_raises c bytes result s now es h w q =
    ground (arith, run_quiet es (send_data bytes result s c).0 (s + reply_limit) q)

-- The calls of asio, newest first, in which each move of the deadline is followed by a wait.
abbrev pub IsRearmed : List AsioCall → Type 0
IsRearmed [] = Unit {0}
IsRearmed (async_wait ∷ set_deadline d ∷ calls) = IsRearmed calls
IsRearmed (async_read n ∷ calls) = IsRearmed calls
IsRearmed (_ ∷ calls) = ⊥

step-IsRearmed :
    (e : Event) (c : Controller) → IsRearmed c.watch.calls → IsRearmed (step e c).0.watch.calls
unfolding step
step-IsRearmed (writes bytes result now) c h = ground arith
step-IsRearmed (replies ec size) c h = h
step-IsRearmed (checks now) c h = ground arith

run-IsRearmed :
    (es : List Event) (c : Controller)
    → IsRearmed c.watch.calls
    → IsRearmed (run es c).0.watch.calls
unfolding run
run-IsRearmed [] c h = h
run-IsRearmed (e ∷ es) c h = run-IsRearmed es (step e c).0 (step-IsRearmed e c h)

-- After `Init`, whatever is written, answered or timed out, each move of the deadline was followed by
-- a wait on the timer: the watch is never left without one.
pub watch-IsRearmed :
    (channel : ℕ) (es : List Event)
    → IsRearmed (run es (init channel new_controller).0).0.watch.calls
unfolding init new_controller
watch-IsRearmed channel es = run-IsRearmed es (init channel new_controller).0 tt
