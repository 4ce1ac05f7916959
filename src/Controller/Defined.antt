-- ===== src/Controller/Defined.antt =====
-- When a turn of a door's thread is defined.
use door_switch_svr.Prelude.{
  true, ℕ, sym, Bool-cases, ◌≤◌, ◌≡◌, ◌∙◌, ap, refl, false, ◌⊎◌, inl, inr, Bool, List, Option, none,
  some, arith,
}
use door_switch_svr.Prelude.Int.{i16_small}
use door_switch_svr.Param.{SwitchType}
use door_switch_svr.Controller.{Controller, WriteResult, answer, command, send_data, run_turn}
use door_switch_svr.Controller.Command.{make_open_command, make_close_command}
use door_switch_svr.Controller.Frame.{commands_drive_relay}
use door_switch_svr.Controller.Run.{Request, opening, closing, turn, overflows}

-- A turn without overflow is the answer to what the thread asks for.
pub run_turn-answer :
    (type : SwitchType) (result : WriteResult) (now : ℕ) (c : Controller) (r : Controller × Bool)
    → run_turn type result now c ≡ some r
    → let (w, request) = turn type now c.worker in
      answer request result now (record c { worker = w }) ≡ some r
unfolding run_turn
run_turn-answer type result now c r e = elim (Bool-cases (overflows now c.worker)) [
  | inl over ↦ ground (arith, over)
  | inr calm ↦ sym (rw calm) ∙ e
]

pub run_turn-calm :
    (type : SwitchType) (result : WriteResult) (now : ℕ) (c : Controller)
    → overflows now c.worker ≡ false
    → let (w, request) = turn type now c.worker in
      run_turn type result now c ≡ answer request result now (record c { worker = w })
unfolding run_turn
run_turn-calm type result now c calm = rw calm

pub command-some :
    (r : Request) (c : ℕ) → 1 ≤ c → c ≤ 15 → (bytes : List ℕ) × (command r c ≡ some bytes)
unfolding command
command-some opening c l u =
    let (bytes, made, _) = (commands_drive_relay c l u).0 in
    (bytes, ap make_open_command (i16_small c (omega (arith, u))) ∙ made)
command-some closing c l u =
    let (bytes, made, _) = (commands_drive_relay c l u).1 in
    (bytes, ap make_close_command (i16_small c (omega (arith, u))) ∙ made)

answer-some :
    (o : Option Request) (result : WriteResult) (now : ℕ) (c : Controller)
    → (o ≡ none) ⊎ ((1 ≤ c.channel) × (c.channel ≤ 15))
    → (r : Controller × Bool) × (answer o result now c ≡ some r)
unfolding answer
answer-some none result now c h = ((c, false), refl)
answer-some (some r) result now c (inl e) = absurd (cc)
answer-some (some r) result now c (inr (l, u)) =
    let (bytes, made) = command-some r c.channel l u in
    rw (answer, made) (send_data bytes result now c, refl)

-- A turn without overflow that sends nothing, or a channel from 1 to 15.
pub run_turn-some :
    (type : SwitchType) (result : WriteResult) (now : ℕ) (c : Controller)
    → overflows now c.worker ≡ false
    → ((turn type now c.worker).1 ≡ none) ⊎ ((1 ≤ c.channel) × (c.channel ≤ 15))
    → (r : Controller × Bool) × (run_turn type result now c ≡ some r)
run_turn-some type result now c calm h =
    let (r, answered) =
      answer-some (turn type now c.worker).1 result now
        (record c { worker = (turn type now c.worker).0 }) h in
    (r, run_turn-calm type result now c calm ∙ answered)

answer-failed :
    (r : Request) (result : WriteResult) (now : ℕ) (c : Controller)
    → 1 ≤ c.channel
    → c.channel ≤ 15
    → result.error ≡ true
    → answer (some r) result now c ≡ some (c, true)
unfolding answer send_data
answer-failed r result now c l u error =
    let (bytes, made) = command-some r c.channel l u in rw (answer, made) (rw error)

-- A turn that sends a command, and whose write fails: nothing else changes, and the error callback is
-- called.
pub run_turn-failed :
    (type : SwitchType) (result : WriteResult) (now : ℕ) (c : Controller) (r : Request)
    → overflows now c.worker ≡ false
    → 1 ≤ c.channel
    → c.channel ≤ 15
    → (turn type now c.worker).1 ≡ some r
    → result.error ≡ true
    → run_turn type result now c ≡ some (record c { worker = (turn type now c.worker).0 }, true)
run_turn-failed type result now c r calm l u sends error =
    let c' : Controller = record c { worker = (turn type now c.worker).0 } in
    run_turn-calm type result now c calm
    ∙ ap (λ o. answer o result now c') sends
    ∙ answer-failed r result now c' l u error
