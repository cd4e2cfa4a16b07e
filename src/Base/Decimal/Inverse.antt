-- ===== src/Base/Decimal/Inverse.antt =====
-- The decimal printing of fmt and strconv, and strconv.ParseInt of what it prints.
use Prim.Native.Nat.{ℕ, zero, suc, ◌+◌, ◌-◌, ◌*◌, ◌/◌, ◌%◌, ◌^◌, ◌<◌}
use mathlib.Core.Path.{◌≡◌, refl, ◌∙◌}
use mathlib.Core.Logic.{inl, inr}
use mathlib.Core.Bool.{true, false}
use mathlib.Core.Option.{some}
use mathlib.Core.List.{[], ◌∷◌}
use native.Mathlib.Omega.{arith}
use native.Mathlib.Nat.{pow-succ'}
use plex_mirror.Base.Tests.{ltb, ltb→lt, lt→ltb, ◌==◌, Bool-cases}
use plex_mirror.Base.Lists.{All}
use plex_mirror.Base.Strings.{Text, is_empty}
use plex_mirror.Base.Int.{pos}
use plex_mirror.Base.Decimal.{is_digit, digits_value, unsigned, parse_int, show_fuel, show_nat}

abbrev pub IsDigit : ℕ → Type 0
IsDigit c = is_digit c ≡ true

shown-IsDigit : (d : ℕ) → d < 10 → IsDigit (b'0' + d)
unfolding is_digit
shown-IsDigit d h = ground arith

tenth : (f n : ℕ) → n < 10 ^ suc f → n / 10 < 10 ^ f
tenth f n h = omega (arith, pow-succ' 10 f)

digits_value-digit :
    (acc d : ℕ) (rest : Text)
    → d < 10
    → digits_value acc ((b'0' + d) ∷ rest) ≡ digits_value (acc * 10 + d) rest
unfolding digits_value
digits_value-digit acc d rest h = rw (shown-IsDigit d h) (rw same refl)
  where
    same : b'0' + d - b'0' ≡ d
    same = omega arith

digits_value-show_fuel :
    (f n : ℕ) (rest : Text) → n < 10 ^ f → digits_value 0 (show_fuel f n rest) ≡ digits_value n rest
unfolding show_fuel
digits_value-show_fuel zero n rest h = rw zero_eq refl
  where
    zero_eq : n ≡ 0
    zero_eq = omega arith
digits_value-show_fuel (suc f) n rest h = elim (Bool-cases (ltb n 10)) [
  | inl e ↦ rw e (digits_value-digit 0 n rest (ltb→lt n 10 e) ∙ rw zero_acc refl)
  | inr e ↦ rw e (
      digits_value-show_fuel f (n / 10) ((b'0' + n % 10) ∷ rest) (tenth f n h)
      ∙ digits_value-digit (n / 10) (n % 10) rest (omega arith)
      ∙ rw whole refl)
]
  where
    zero_acc : 0 * 10 + n ≡ n
    zero_acc = omega arith

    whole : n / 10 * 10 + n % 10 ≡ n
    whole = omega arith

show_fuel-IsDigit : (f n : ℕ) (rest : Text) → All IsDigit rest → All IsDigit (show_fuel f n rest)
unfolding show_fuel
show_fuel-IsDigit zero n rest h = h
show_fuel-IsDigit (suc f) n rest h = elim (Bool-cases (ltb n 10)) [
  | inl e ↦ rw e (shown-IsDigit n (ltb→lt n 10 e), h)
  | inr e ↦ rw e (
      show_fuel-IsDigit f (n / 10) ((b'0' + n % 10) ∷ rest)
        (shown-IsDigit (n % 10) (omega arith), h))
]

pub show_nat-IsDigit : (n : ℕ) → All IsDigit (show_nat n)
unfolding show_nat
show_nat-IsDigit n = show_fuel-IsDigit 20 n [] tt

digits_value-show_nat : (n : ℕ) → n < 10 ^ 20 → digits_value 0 (show_nat n) ≡ some n
unfolding show_nat digits_value
digits_value-show_nat n h = digits_value-show_fuel 20 n [] h

show_fuel_filled : (f n c : ℕ) (rest : Text) → is_empty (show_fuel f n (c ∷ rest)) ≡ false
unfolding show_fuel
show_fuel_filled zero n c rest = refl
show_fuel_filled (suc f) n c rest = elim (Bool-cases (ltb n 10)) [
  | inl e ↦ rw e refl
  | inr e ↦ rw e (show_fuel_filled f (n / 10) (b'0' + n % 10) (c ∷ rest))
]

pub show_nat_filled : (n : ℕ) → is_empty (show_nat n) ≡ false
unfolding show_nat show_fuel
show_nat_filled n = elim (Bool-cases (ltb n 10)) [
  | inl e ↦ rw e refl
  | inr e ↦ rw e (show_fuel_filled 19 (n / 10) (b'0' + n % 10) [])
]

signless : (c : ℕ) → IsDigit c → ((c == b'-') ≡ false) × ((c == b'+') ≡ false)
unfolding is_digit
signless c h = ground arith

parse_int_digits :
    (n c : ℕ) (s : Text)
    → n < 2 ^ 63
    → ((c == b'-') ≡ false) × ((c == b'+') ≡ false)
    → digits_value 0 (c ∷ s) ≡ some n
    → parse_int (c ∷ s) ≡ some (pos n)
unfolding parse_int unsigned
parse_int_digits n c s h (minus, plus) e = rw (minus, plus, e, lt→ltb n (2 ^ 63) h) refl

-- What strconv prints of a count in range is parsed as that count.
pub parse_int-show_nat : (n : ℕ) → n < 2 ^ 63 → parse_int (show_nat n) ≡ some (pos n)
parse_int-show_nat n h =
    read (show_nat n) (show_nat_filled n) (show_nat-IsDigit n)
      (digits_value-show_nat n (omega arith))
  where
    read :
        (s : Text)
        → is_empty s ≡ false
        → All IsDigit s
        → digits_value 0 s ≡ some n
        → parse_int s ≡ some (pos n)
    read [] f d e = cc
    read (c ∷ s) f d e = parse_int_digits n c s h (signless c d.0) e
