-- ===== src/Controller/Frame.antt =====
-- The frames of `Controller.Command` against a reader of the relay board's protocol, written apart
-- from the code: a header, sixteen data bits, sixteen enable bits, a sum of the body and its double.
use native.Mathlib.Nat.{pow-le-pow_right}
use native.Mathlib.Decide.{dec_lt}
use door_switch_svr.Prelude.{
  ℕ, zero, suc, ◌+◌, ◌-◌, ◌*◌, ◌%◌, ◌^◌, ◌≤◌, ◌<◌, ◌≡◌, refl, ◌⊎◌, inl, inr, List, [], ◌∷◌, Option,
  none, some, false, true, ◌&&◌, arith, ◌==◌, ltb, if◌then◌else◌,
}
use door_switch_svr.Prelude.Int.{pos, i16, i16_small, i16_large}
use door_switch_svr.Controller.Command.{
  open_bytes, close_bytes, make_open_command, make_close_command,
}

-- The relays that a frame drives, and the state that each of these gets: bit n - 1 is relay n.
pub record Reading : Type 0 where
  pub data_bits : ℕ
  pub enabled : ℕ

abbrev pub body_sum : ℕ → ℕ → ℕ → ℕ → ℕ
body_sum a b c d = (0xa1 + 0x01 + a + b + c + d) % 256

abbrev pub read_frame : List ℕ → Option Reading
read_frame (h1 ∷ h2 ∷ w ∷ address ∷ a ∷ b ∷ c ∷ d ∷ sum ∷ double ∷ []) =
    if h1 == 0xcc
      && (h2 == 0xdd)
      && (w == 0xa1)
      && (address == 0x01)
      && (sum == body_sum a b c d)
      && (double == 2 * sum % 256)
    then some (record { data_bits = 256 * a + b; enabled = 256 * c + d })
    else none
read_frame _ = none

reads_open :
    (x : ℕ) → x < 65536 → read_frame (open_bytes x) ≡ some (record { data_bits = x; enabled = x })
unfolding open_bytes
reads_open x h = ground arith

reads_close :
    (x : ℕ) → x < 65536 → read_frame (close_bytes x) ≡ some (record { data_bits = 0; enabled = x })
unfolding close_bytes
reads_close x h = ground arith

pow-lt : (e : ℕ) → e < 15 → 2 ^ e < 65536
pow-lt e h = omega (arith, pow-le-pow_right {n = 2} (omega arith) {i = e} {j = 15} (omega arith))

sub-suc-one : (e : ℕ) → suc e - 1 ≡ e
sub-suc-one e = omega arith

-- The frame is there, and the board reads these data bits and enable bits from it.
abbrev pub Reads : Option (List ℕ) → ℕ → ℕ → Type 0
Reads o d e =
    (f : List ℕ) × (o ≡ some f) × (read_frame f ≡ some (record { data_bits = d; enabled = e }))

-- For channels 1 to 15 the board reads, from an open command, that the relay of the channel and no
-- other is driven to 1, and from a close command that the same relay and no other is driven to 0.
pub commands_drive_relay :
    (c : ℕ)
    → 1 ≤ c
    → c ≤ 15
    → Reads (make_open_command (pos c)) (2 ^ (c - 1)) (2 ^ (c - 1))
      × Reads (make_close_command (pos c)) 0 (2 ^ (c - 1))
unfolding make_open_command make_close_command
commands_drive_relay zero l h = absurd (omega arith)
commands_drive_relay (suc e) l h =
    let small : ltb e 15 ≡ true = ground arith in
    rw (sub-suc-one e) (
      rw small (
        (open_bytes (2 ^ e), refl, reads_open (2 ^ e) (pow-lt e (omega arith))),
        (close_bytes (2 ^ e), refl, reads_close (2 ^ e) (pow-lt e (omega arith))),
      ))

-- Channels from 16 to 65535 have no command: the conversion of the power to 16 bits is undefined
-- for those that a `short` holds, and for the others, which a `short` holds as negative numbers,
-- both frames enable no relay at all.
pub commands_past_board :
    (c : ℕ)
    → 16 ≤ c
    → c < 65536
    → ((c < 32768)
        × (make_open_command (i16 (pos c)) ≡ none)
        × (make_close_command (i16 (pos c)) ≡ none))
      ⊎ ((32768 ≤ c)
          × Reads (make_open_command (i16 (pos c))) 0 0
          × Reads (make_close_command (i16 (pos c))) 0 0)
unfolding make_open_command make_close_command
commands_past_board zero l h = absurd (omega arith)
commands_past_board (suc e) l h = elim (dec_lt (suc e) 32768) [
  | yes p ↦
      let big : ltb e 15 ≡ false = ground arith in
      inl (p, rw (i16_small (suc e) p) (rw big), rw (i16_small (suc e) p) (rw big))
  | no p ↦
      let neg = i16_large (suc e) (omega arith) h in
      inr (
        omega arith,
        rw neg (open_bytes 0, refl, reads_open 0 (omega arith)),
        rw neg (close_bytes 0, refl, reads_close 0 (omega arith)),
      )
]
