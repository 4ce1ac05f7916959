-- ===== src/Controller/Board.antt =====
-- The relay board behind the frames of `Controller.Command`: sixteen relays, each open or closed, and what
-- the commands of the program make of them.
use door_switch_svr.Prelude.{
  ℕ, zero, suc, ◌-◌, ◌/◌, ◌%◌, ◌^◌, ◌≤◌, ◌<◌, ◌≡◌, refl, ◌∙◌, ap, List, Bool, true, false, ◌&&◌,
  not, Option, none, some, arith, ◌==◌, if◌then◌else◌,
}
use door_switch_svr.Prelude.Int.{pos, i16, i16_small}
use door_switch_svr.Controller.{command}
use door_switch_svr.Controller.Command.{make_open_command, make_close_command}
use door_switch_svr.Controller.Frame.{Reading, read_frame, commands_drive_relay}
use door_switch_svr.Controller.Run.{Request, opening, closing}

abbrev pub bit : ℕ → ℕ → Bool
bit x i = x / 2 ^ i % 2 == 1

-- Relay n is open; its bits are those of n - 1.
abbrev pub Relays : Type 0
Relays = ℕ → Bool

abbrev pub apply : Reading → Relays → Relays
apply r relays n = if bit r.enabled (n - 1) then bit r.data_bits (n - 1) else relays n

abbrev pub obey_reading : Option Reading → Relays → Relays
obey_reading none relays = relays
obey_reading (some r) relays = apply r relays

abbrev pub obey : Option (List ℕ) → Relays → Relays
obey none relays = relays
obey (some frame) relays = obey_reading (read_frame frame) relays

abbrev pub all_below : ℕ → (ℕ → Bool) → Bool
all_below zero f = true
all_below (suc n) f = f n && all_below n f

all_below-holds : (n i : ℕ) (f : ℕ → Bool) → all_below n f ≡ true → i < n → f i ≡ true
all_below-holds zero i f a l = absurd (omega arith)
all_below-holds (suc n) i f a l = ground (arith, all_below-holds n i f)

abbrev is_same : Bool → Bool → Bool
is_same true b = b
is_same false b = not b

bits_checked : all_below 15 (λ a. all_below 16 (λ b. is_same (bit (2 ^ a) b) (a == b))) ≡ true
bits_checked = refl

same-true : (a b : Bool) → is_same a b ≡ true → a ≡ b
same-true a b e = ground arith

bit-pow : (a b : ℕ) → a < 15 → b < 16 → bit (2 ^ a) b ≡ (a == b)
bit-pow a b la lb =
    let row =
      all_below-holds 15 a (λ a. all_below 16 (λ b. is_same (bit (2 ^ a) b) (a == b))) bits_checked
        la in
    same-true _ _ (all_below-holds 16 b (λ b. is_same (bit (2 ^ a) b) (a == b)) row lb)

bit-zero : (b : ℕ) → b < 16 → bit 0 b ≡ false
bit-zero b lb = same-true _ _ (all_below-holds 16 b (λ b. is_same (bit 0 b) false) refl lb)

abbrev pub is_opening : Request → Bool
is_opening opening = true
is_opening closing = false

same-channel : (c n : ℕ) → 1 ≤ c → 1 ≤ n → (c - 1 == n - 1) ≡ (c == n)
same-channel c n lc ln = ground arith

obey-frame :
    (o : Option (List ℕ)) (f : List ℕ) (d e : ℕ) (relays : Relays) (n : ℕ)
    → o ≡ some f
    → read_frame f ≡ some (record { data_bits = d; enabled = e })
    → obey o relays n ≡ (if bit e (n - 1) then bit d (n - 1) else relays n)
obey-frame o f d e relays n made reads = rw (made, reads)

module _ (c n : ℕ) (lc : 1 ≤ c) (uc : c ≤ 15) (ln : 1 ≤ n) (un : n ≤ 16) (relays : Relays) where
  bit-channel : bit (2 ^ (c - 1)) (n - 1) ≡ (c == n)
  bit-channel = bit-pow (c - 1) (n - 1) (omega arith) (omega arith) ∙ same-channel c n lc ln

  -- A command moves the relay of its channel and no other.
  pub obey-command :
      (r : Request) → obey (command r c) relays n ≡ (if c == n then is_opening r else relays n)
  unfolding command
  obey-command opening =
      let (f, made, reads) = (commands_drive_relay c lc uc).0 in
      obey-frame (make_open_command (i16 (pos c))) f _ _ relays n
        (ap make_open_command (i16_small c (omega arith)) ∙ made) reads
      ∙ ap (λ b. if b then b else relays n) bit-channel
      ∙ ground arith
  obey-command closing =
      let (f, made, reads) = (commands_drive_relay c lc uc).1 in
      obey-frame (make_close_command (i16 (pos c))) f _ _ relays n
        (ap make_close_command (i16_small c (omega arith)) ∙ made) reads
      ∙ rw (bit-channel, bit-zero (n - 1) (omega arith))
