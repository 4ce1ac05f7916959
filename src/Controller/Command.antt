-- ===== src/Controller/Command.antt =====
-- src/DoorSwitchChannelController.cpp, make_open_command and make_close_command: the ten bytes that
-- switch one relay of the board. `none` is undefined behaviour: the conversion to `int16_t` of a
-- floating value that it cannot hold.
use door_switch_svr.Prelude.{
  ℕ, zero, suc, ◌+◌, ◌/◌, ◌^◌, List, [], ◌∷◌, Option, none, some, ltb, if◌then◌else◌,
}
use door_switch_svr.Prelude.Int.{ℤ, pos, negsuc, u8}

-- `int16_t x = pow(2, channel - 1)`: below channel 1 the power is a fraction, which is cut to 0.
unfoldable pub pow2_i16 : ℤ → Option ℕ
pow2_i16 (negsuc n) = some 0
pow2_i16 (pos zero) = some 0
pow2_i16 (pos (suc e)) = if ltb e 15 then some (2 ^ e) else none

-- The bytes of an open command, from the value of `D1D0`. The right shift of the `int16_t` is that
-- of a number that is not negative.
unfoldable pub open_bytes : ℕ → List ℕ
open_bytes d1d0 =
    let h1 : ℕ = 0xcc in
    let h2 : ℕ = 0xdd in
    let w : ℕ = 0xa1 in
    let address : ℕ = 0x01 in
    let d1 = u8 (d1d0 / 2 ^ 8) in
    let d0 = u8 d1d0 in
    let ce1 = d1 in
    let ce0 = d0 in
    let add1 = u8 (w + address + d1 + d0 + ce1 + ce0) in
    let add2 = u8 (add1 + add1) in h1 ∷ h2 ∷ w ∷ address ∷ d1 ∷ d0 ∷ ce1 ∷ ce0 ∷ add1 ∷ add2 ∷ []

-- The bytes of a close command, from the value of `CE1CE0`.
unfoldable pub close_bytes : ℕ → List ℕ
close_bytes ce1ce0 =
    let h1 : ℕ = 0xcc in
    let h2 : ℕ = 0xdd in
    let w : ℕ = 0xa1 in
    let address : ℕ = 0x01 in
    let d1 : ℕ = 0x00 in
    let d0 : ℕ = 0x00 in
    let ce1 = u8 (ce1ce0 / 2 ^ 8) in
    let ce0 = u8 ce1ce0 in
    let add1 = u8 (w + address + d1 + d0 + ce1 + ce0) in
    let add2 = u8 (add1 + add1) in h1 ∷ h2 ∷ w ∷ address ∷ d1 ∷ d0 ∷ ce1 ∷ ce0 ∷ add1 ∷ add2 ∷ []

abbrev pub map_option : {A B : Type 0} → (A → B) → Option A → Option B
map_option f none = none
map_option f (some a) = some (f a)

unfoldable pub make_open_command : ℤ → Option (List ℕ)
unfolding pow2_i16 open_bytes
make_open_command channel = map_option open_bytes (pow2_i16 channel)

unfoldable pub make_close_command : ℤ → Option (List ℕ)
unfolding pow2_i16 close_bytes
make_close_command channel = map_option close_bytes (pow2_i16 channel)
