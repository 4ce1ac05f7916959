-- ===== src/Controller/Kept.antt =====
-- What a turn of the thread leaves as it was in its controller.
use door_switch_svr.Prelude.{
  ℕ, ◌≡◌, ◌∙◌, ap, Bool, Option, none, some, arith, List, inl, inr, Option-cases,
}
use door_switch_svr.Param.{SwitchType}
use door_switch_svr.Controller.{Controller, WriteResult, answer, command, send_data, run_turn}
use door_switch_svr.Controller.Defined.{run_turn-answer}
use door_switch_svr.Controller.Run.{Worker, Request, not_started, turn}

record Same (c c' : Controller) : Type 0 where
  callback : c'.has_callback ≡ c.has_callback
  channel : c'.channel ≡ c.channel
  worker : c'.worker ≡ c.worker

send_data-Same :
    (bytes : List ℕ) (result : WriteResult) (now : ℕ) (c : Controller)
    → Same c (send_data bytes result now c).0
unfolding send_data
send_data-Same bytes result now c = ground arith

answer-Same :
    (r : Option Request) (result : WriteResult) (now : ℕ) (c c' : Controller) (raised : Bool)
    → answer r result now c ≡ some (c', raised)
    → Same c c'
unfolding answer
answer-Same none result now c c' raised e = ground arith
answer-Same (some r) result now c c' raised e = elim (Option-cases (command r c.channel)) [
  | inl undefined ↦ ground (arith, undefined)
  | inr (bytes, defined) ↦ ground (arith, defined, send_data-Same bytes result now c)
]

pub turn-not_started :
    (type : SwitchType) (result : WriteResult) (now : ℕ) (c c' : Controller) (raised : Bool)
    → c.worker.pc ≡ not_started
    → run_turn type result now c ≡ some (c', raised)
    → c'.worker.pc ≡ not_started
unfolding turn
turn-not_started type result now c c' raised n e =
    let k =
      answer-Same (turn type now c.worker).1 result now
        (record c { worker = (turn type now c.worker).0 }) c' raised
        (run_turn-answer type result now c (c', raised) e) in
    ap (λ w. w.pc) k.worker ∙ ground arith

pub turn-kept :
    (type : SwitchType) (result : WriteResult) (now : ℕ) (c c' : Controller) (raised : Bool)
    → run_turn type result now c ≡ some (c', raised)
    → (c'.has_callback ≡ c.has_callback) × (c'.channel ≡ c.channel)
turn-kept type result now c c' raised e =
    let k =
      answer-Same (turn type now c.worker).1 result now
        (record c { worker = (turn type now c.worker).0 }) c' raised
        (run_turn-answer type result now c (c', raised) e) in
    (k.callback, k.channel)

pub turn-worker :
    (type : SwitchType) (result : WriteResult) (now : ℕ) (c c' : Controller) (raised : Bool)
    → run_turn type result now c ≡ some (c', raised)
    → c'.worker ≡ (turn type now c.worker).0
turn-worker type result now c c' raised e =
    (answer-Same (turn type now c.worker).1 result now
      (record c { worker = (turn type now c.worker).0 }) c' raised
      (run_turn-answer type result now c (c', raised) e)).worker

-- A thread that was never started sends nothing.
pub unstarted-silent :
    (type : SwitchType) (now : ℕ) (w : Worker) → w.pc ≡ not_started → (turn type now w).1 ≡ none
unfolding turn
unstarted-silent type now w n = rw n
