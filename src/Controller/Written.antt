-- ===== src/Controller/Written.antt =====
-- A turn of a door's thread whose write is complete reports no error.
use door_switch_svr.Prelude.{
  ℕ, ◌≤◌, ◌≡◌, refl, sym, ◌∙◌, ap, inl, inr, Bool, false, List, Option, none, some, arith, length,
  Option-cases,
}
use door_switch_svr.Prelude.Int.{pos, i16}
use door_switch_svr.Param.{SwitchType}
use door_switch_svr.Controller.{Controller, WriteResult, answer, command, send_data, run_turn}
use door_switch_svr.Controller.Command.{
  pow2_i16, make_open_command, make_close_command, map_option, open_bytes, close_bytes,
}
use door_switch_svr.Controller.Defined.{run_turn-answer}
use door_switch_svr.Controller.Run.{Request, opening, closing, turn}

-- The write has no error and takes all ten bytes of a command.
abbrev pub IsWritten : WriteResult → Type 0
IsWritten result = (result.error ≡ false) × (10 ≤ result.len)

map_option-length :
    (f : ℕ → List ℕ) (o : Option ℕ) (bytes : List ℕ)
    → ((n : ℕ) → length (f n) ≡ 10)
    → map_option f o ≡ some bytes
    → length bytes ≡ 10
map_option-length f none bytes ten made = absurd (none-some made)
  where
    none-some : none ≡ some bytes → ⊥
    none-some e = cc
map_option-length f (some n) bytes ten made = ap length (sym (some-eq made)) ∙ ten n
  where
    some-eq : some (f n) ≡ some bytes → f n ≡ bytes
    some-eq e = cc

pub command-length :
    (r : Request) (c : ℕ) (bytes : List ℕ) → command r c ≡ some bytes → length bytes ≡ 10
unfolding command make_open_command make_close_command
command-length opening c bytes made =
    map_option-length open_bytes (pow2_i16 (i16 (pos c))) bytes (λ n. unfold open_bytes in refl)
      made
command-length closing c bytes made =
    map_option-length close_bytes (pow2_i16 (i16 (pos c))) bytes (λ n. unfold close_bytes in refl)
      made

send_data-quiet :
    (bytes : List ℕ) (result : WriteResult) (now : ℕ) (c : Controller)
    → length bytes ≡ 10
    → IsWritten result
    → (send_data bytes result now c).1 ≡ false
unfolding send_data
send_data-quiet bytes result now c ten w = ground arith

answer-quiet :
    (o : Option Request) (result : WriteResult) (now : ℕ) (c : Controller) (r : Controller × Bool)
    → answer o result now c ≡ some r
    → IsWritten result
    → r.1 ≡ false
unfolding answer
answer-quiet none result now c r e w = ap (λ (x : Controller × Bool). x.1) (some-pair e)
  where
    some-pair : some (c, false) ≡ some r → r ≡ (c, false)
    some-pair e = cc
answer-quiet (some q) result now c r e w = elim (Option-cases (command q c.channel)) [
  | inl undefined ↦ ground (arith, undefined)
  | inr (bytes, defined) ↦ ground (
    arith,
    defined,
    send_data-quiet bytes result now c (command-length q c.channel bytes defined) w,
  )
]

pub run_turn-quiet :
    (type : SwitchType) (result : WriteResult) (now : ℕ) (c : Controller) (r : Controller × Bool)
    → run_turn type result now c ≡ some r
    → IsWritten result
    → r.1 ≡ false
run_turn-quiet type result now c r e w =
    answer-quiet (turn type now c.worker).1 result now
      (record c { worker = (turn type now c.worker).0 }) r (run_turn-answer type result now c r e) w
