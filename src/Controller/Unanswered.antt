-- ===== src/Controller/Unanswered.antt =====
-- The deadline for the reply of the board under the turns of a door's thread.
use door_switch_svr.Prelude.{
  ℕ, ◌+◌, ◌≡◌, subst, inl, inr, Bool, List, Option, none, some, arith, length, Option-cases,
}
use door_switch_svr.Param.{SwitchType}
use door_switch_svr.Controller.{Controller, WriteResult, answer, command, send_data, run_turn}
use door_switch_svr.Controller.Defined.{run_turn-answer}
use door_switch_svr.Controller.Run.{Request, turn}
use door_switch_svr.Controller.Watchdog.{never, due, reply_limit}
use door_switch_svr.Controller.Written.{IsWritten, command-length}

send_data-due :
    (bytes : List ℕ) (result : WriteResult) (now d : ℕ) (c : Controller)
    → c.watch.deadline ≡ due d
    → (send_data bytes result now c).0.watch.deadline ≡ due d
unfolding send_data
send_data-due bytes result now d c h = ground arith

answer-due :
    (o : Option Request) (result : WriteResult) (now d : ℕ) (c : Controller) (r : Controller × Bool)
    → answer o result now c ≡ some r
    → c.watch.deadline ≡ due d
    → r.0.watch.deadline ≡ due d
unfolding answer
answer-due none result now d c r e h = ground arith
answer-due (some q) result now d c r e h = elim (Option-cases (command q c.channel)) [
  | inl undefined ↦ ground (arith, undefined)
  | inr (bytes, defined) ↦ ground (arith, defined, send_data-due bytes result now d c h)
]

-- A deadline that is set stays.
pub run_turn-due :
    (type : SwitchType) (result : WriteResult) (now d : ℕ) (c : Controller) (r : Controller × Bool)
    → run_turn type result now c ≡ some r
    → c.watch.deadline ≡ due d
    → r.0.watch.deadline ≡ due d
run_turn-due type result now d c r e h =
    answer-due (turn type now c.worker).1 result now d
      (record c { worker = (turn type now c.worker).0 }) r (run_turn-answer type result now c r e) h

send_data-arms :
    (bytes : List ℕ) (result : WriteResult) (now : ℕ) (c : Controller)
    → length bytes ≡ 10
    → IsWritten result
    → c.watch.deadline ≡ never
    → (send_data bytes result now c).0.watch.deadline ≡ due (now + reply_limit)
unfolding send_data
send_data-arms bytes result now c ten w h = ground arith

answer-arms :
    (q : Request) (result : WriteResult) (now : ℕ) (c : Controller) (r : Controller × Bool)
    → answer (some q) result now c ≡ some r
    → IsWritten result
    → c.watch.deadline ≡ never
    → r.0.watch.deadline ≡ due (now + reply_limit)
unfolding answer
answer-arms q result now c r e w h = elim (Option-cases (command q c.channel)) [
  | inl undefined ↦ ground (arith, undefined)
  | inr (bytes, defined) ↦ ground (
    arith,
    defined,
    send_data-arms bytes result now c (command-length q c.channel bytes defined) w h,
  )
]

-- A command that is written in full while none is outstanding sets the deadline.
pub run_turn-arms :
    (type : SwitchType) (result : WriteResult) (now : ℕ) (c : Controller) (q : Request)
    (r : Controller × Bool)
    → (turn type now c.worker).1 ≡ some q
    → run_turn type result now c ≡ some r
    → IsWritten result
    → c.watch.deadline ≡ never
    → r.0.watch.deadline ≡ due (now + reply_limit)
run_turn-arms type result now c q r sends e w h =
    let c' : Controller = record c { worker = (turn type now c.worker).0 } in
    answer-arms q result now c' r
      (subst (λ o. answer o result now c' ≡ some r) sends (run_turn-answer type result now c r e)) w
      h
