-- ===== src/StreamNode/Stoi.antt =====
-- `std::stoi` on a string, as testsuite/SeetaMockStreamNode/test_main.cpp calls it: leading white
-- space, a sign, and the digits up to the first other character. It throws if there is no digit, or
-- if the value is out of the range of `int`.
use door_switch_svr.Prelude.{
  ℕ, zero, suc, ◌+◌, ◌-◌, ◌*◌, [], ◌∷◌, Bool, true, false, ◌&&◌, ◌||◌, leb, ◌==◌, if◌then◌else◌,
}
use door_switch_svr.Prelude.Int.{ℤ, pos, negsuc}
use door_switch_svr.Param.{Text, text}
use door_switch_svr.Poco.{Result, ok, thrown}

abbrev pub is_space : ℕ → Bool
is_space c = c == 32 || leb 9 c && leb c 13

abbrev pub is_digit : ℕ → Bool
is_digit c = leb 48 c && leb c 57

abbrev pub skip_space : Text → Text
skip_space [] = []
skip_space (c ∷ cs) = let rest = skip_space cs in if is_space c then rest else c ∷ cs

-- The value of the digits in front, behind digits of the value `n`.
abbrev pub digits : ℕ → Text → ℕ
digits n [] = n
digits n (c ∷ cs) = let rest = digits (10 * n + (c - 48)) cs in if is_digit c then rest else n

abbrev in_range : Bool → ℕ → Result ℤ
in_range false n = if leb n 2147483647 then ok (pos n) else thrown (text "stoi")
in_range true zero = ok (pos 0)
in_range true (suc n) = if leb n 2147483647 then ok (negsuc n) else thrown (text "stoi")

abbrev unsigned : Bool → Text → Result ℤ
unsigned negative [] = thrown (text "stoi")
unsigned negative (c ∷ cs) =
    if is_digit c then in_range negative (digits 0 (c ∷ cs)) else thrown (text "stoi")

-- 43 is the plus sign, 45 the minus sign.
abbrev signed : Text → Result ℤ
signed [] = thrown (text "stoi")
signed (c ∷ cs) =
    if c == 45
    then unsigned true cs
    else if c == 43
    then unsigned false cs
    else unsigned false (c ∷ cs)

unfoldable pub stoi : Text → Result ℤ
stoi s = signed (skip_space s)
