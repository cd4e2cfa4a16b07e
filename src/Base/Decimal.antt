-- ===== src/Base/Decimal.antt =====
-- strconv.ParseInt(s, 10, 64) and the decimal printing of fmt.
pub mod Inverse
use Prim.Native.Nat.{ℕ, zero, suc, ◌+◌, ◌-◌, ◌*◌, ◌/◌, ◌%◌, ◌^◌}
use mathlib.Core.Bool.{Bool, ◌&&◌}
use mathlib.Core.Option.{Option, none, some}
use mathlib.Core.List.{[], ◌∷◌}
use plex_mirror.Base.Tests.{◌==◌, leb, ltb, if◌then◌else◌}
use plex_mirror.Base.Strings.{Text}
use plex_mirror.Base.Int.{ℤ, pos, neg}

unfoldable pub is_digit : ℕ → Bool
is_digit c = leb b'0' c && leb c b'9'

-- The number that a run of digits spells, after `acc`.
unfoldable pub digits_value : ℕ → Text → Option ℕ
unfolding is_digit
digits_value acc [] = some acc
digits_value acc (c ∷ cs) =
    let rest = digits_value (acc * 10 + (c - b'0')) cs in if is_digit c then rest else none

-- At least one digit.
unfoldable pub unsigned : Text → Option ℕ
unfolding digits_value
unsigned [] = none
unsigned (c ∷ cs) = digits_value 0 (c ∷ cs)

abbrev pub positive : Option ℕ → Option ℤ
positive none = none
positive (some n) = if ltb n (2 ^ 63) then some (pos n) else none

abbrev pub negative : Option ℕ → Option ℤ
negative none = none
negative (some n) = if leb n (2 ^ 63) then some (neg n) else none

-- One sign, then digits, in the range of int64.
unfoldable pub parse_int : Text → Option ℤ
unfolding unsigned
parse_int [] = none
parse_int (c ∷ cs) =
    if c == b'-'
    then negative (unsigned cs)
    else if c == b'+'
    then positive (unsigned cs)
    else positive (unsigned (c ∷ cs))

-- %d of a count below 10 ^ fuel, before `rest`.
unfoldable pub show_fuel : ℕ → ℕ → Text → Text
show_fuel zero n rest = rest
show_fuel (suc f) n rest =
    let more = show_fuel f (n / 10) ((b'0' + n % 10) ∷ rest) in
    if ltb n 10 then (b'0' + n) ∷ rest else more

unfoldable pub show_nat : ℕ → Text
unfolding show_fuel
show_nat n = show_fuel 20 n []

-- %02d
unfoldable pub show_two : ℕ → Text
unfolding show_nat
show_two n = if ltb n 10 then b'0' ∷ show_nat n else show_nat n
