-- ===== src/Config/Printed.antt =====
-- ParseSize of internal/config/config.go on the plain number of bytes that the settings page shows.
use mathlib.Core.List.{reverse}
use plex_mirror.Base.{
  ℕ, ◌<◌, ◌^◌, ◌*◌, ◌≡◌, refl, sym, ap, ◌∙◌, inl, inr, arith, true, false, some, [], ◌∷◌, ◌==◌, All,
  All-reverse, Text, text_eq, text_eq_iff, codes, is_space, has_prefix, has_suffix, trim_left,
  trim_right, trim_func, trim_space, upper, to_upper, Bool-cases,
}
use plex_mirror.Base.Int.{pos, wrap64, wrap64_small}
use plex_mirror.Base.Decimal.{is_digit, parse_int, show_nat}
use plex_mirror.Base.Decimal.Inverse.{
  IsDigit, show_nat-IsDigit, show_nat_filled, parse_int-show_nat,
}
use plex_mirror.Config.{parse_size, split_unit, scale, ok}
use mathlib.Core.List

digit_upper : (c : ℕ) → IsDigit c → upper c ≡ c
unfolding is_digit upper
digit_upper c h = ground arith

digit_space : (c : ℕ) → IsDigit c → is_space c ≡ false
unfolding is_digit is_space
digit_space c h = ground arith

to_upper-digits : (s : Text) → All IsDigit s → to_upper s ≡ s
unfolding to_upper
to_upper-digits [] h = refl
to_upper-digits (c ∷ s) h = rw (digit_upper c h.0) (ap (◌∷◌ c) (to_upper-digits s h.1))

trim_left-digits : (s : Text) → All IsDigit s → trim_left is_space s ≡ s
unfolding trim_left
trim_left-digits [] h = refl
trim_left-digits (c ∷ s) h = rw (digit_space c h.0) refl

pub trim_space-digits : (s : Text) → All IsDigit s → trim_space s ≡ s
unfolding trim_space trim_func trim_right
trim_space-digits s h =
    rw (trim_left-digits s h)
      (rw (trim_left-digits (reverse s) (All-reverse IsDigit s h)) (List.reverse-reverse s))

differ : (u c : ℕ) → is_digit u ≡ false → IsDigit c → (u == c) ≡ false
unfolding is_digit
differ u c n d = ground arith

-- No unit ends a run of digits.
has_suffix-digits :
    (u : ℕ) (us s : Text)
    → is_digit u ≡ false
    → All IsDigit s
    → has_suffix (reverse (u ∷ us)) s ≡ false
unfolding has_suffix has_prefix
has_suffix-digits u us s n h =
    rw (List.reverse-reverse (u ∷ us)) (first (reverse s) (All-reverse IsDigit s h))
  where
    first : (t : Text) → All IsDigit t → has_prefix (u ∷ us) t ≡ false
    first [] k = refl
    first (c ∷ t) k = rw (differ u c n k.0) refl

split_unit-digits : (s : Text) → All IsDigit s → split_unit s ≡ (s, 1)
unfolding split_unit is_digit
split_unit-digits s h =
    rw
      (
        has_suffix-digits b'B' (codes "T") s refl h,
        has_suffix-digits b'B' (codes "G") s refl h,
        has_suffix-digits b'B' (codes "M") s refl h,
        has_suffix-digits b'B' (codes "K") s refl h,
        has_suffix-digits b'T' [] s refl h,
        has_suffix-digits b'G' [] s refl h,
        has_suffix-digits b'M' [] s refl h,
        has_suffix-digits b'K' [] s refl h,
      )
      refl

scale_one : (n : ℕ) → n < 2 ^ 63 → scale (some (pos n)) 1 ≡ ok (pos n)
unfolding scale
scale_one n h = ap ok (ap wrap64 times_one ∙ wrap64_small n h)
  where
    times_one : n * 1 ≡ n
    times_one = omega arith

zero_read : parse_int (codes "0") ≡ some (pos 0)
unfolding parse_int
zero_read = refl

pos_of : {m n : ℕ} → some (pos m) ≡ some (pos n) → pos m ≡ pos n
pos_of e = cc

-- The number that is printed of a count of bytes is the size of that count.
pub parse_size-show_nat : (n : ℕ) → n < 2 ^ 63 → parse_size (show_nat n) ≡ ok (pos n)
unfolding parse_size
parse_size-show_nat n h =
    rw
      (
        to_upper-digits (show_nat n) d,
        trim_space-digits (show_nat n) d,
        show_nat_filled n,
        split_unit-digits (show_nat n) d,
      )
      (elim (Bool-cases (text_eq (show_nat n) (codes "0"))) [
        | inl e ↦ rw e (ap ok (zero_size e))
        | inr e ↦ rw (e, trim_space-digits (show_nat n) d, parse_int-show_nat n h) (scale_one n h)
      ])
  where
    d : All IsDigit (show_nat n)
    d = show_nat-IsDigit n

    zero_size : text_eq (show_nat n) (codes "0") ≡ true → pos 0 ≡ pos n
    zero_size e = pos_of (
        sym zero_read
        ∙ ap parse_int (sym ((text_eq_iff (show_nat n) (codes "0")).0 e))
        ∙ parse_int-show_nat n h)
