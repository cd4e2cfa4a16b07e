-- ===== src/Config/Size.antt =====
-- The sizes that ParseSize of internal/config/config.go accepts.
use native.Mathlib.Nat.{zero-mul, mul-one, le-div_iff_mul-le}
use mathlib.Core.Option.{none-ne-some}
use plex_mirror.Base.{
  ℕ, ◌*◌, ◌/◌, ◌-◌, ◌^◌, ◌≤◌, ◌<◌, ◌≡◌, refl, sym, ◌∙◌, ◌⊎◌, inl, inr, false, ◌&&◌, ◌||◌, Option,
  none, some, [], ◌∷◌, ◌==◌, arith, ltb, Bool-cases, Text, codes, text_eq, is_empty, trim_space,
  to_upper, ap, ◌↔◌, true, if◌then◌else◌, text_eq_iff, of_some,
}
use plex_mirror.Base.Int.{ℤ, pos, negsuc, wrap64_small}
use plex_mirror.Base.Decimal.{parse_int, unsigned, positive, negative}
use plex_mirror.Config.Unit.{IsSplit, split_unit-IsSplit}
use plex_mirror.Config.{SizeError, ok, err, split_unit, scale, parse_size}

-- A size: a count before a unit, which is the bytes of the unit that many times, in the range of
-- int64; no unit is one byte.
pub record IsSize (s : Text) (z : ℤ) : Type 0 where
  pub count : ℕ
  pub unit : IsSplit s (split_unit s)
  pub parsed : parse_int (trim_space (split_unit s).0) ≡ some (pos count)
  pub product : z ≡ pos (count * (split_unit s).1)
  pub fits : count * (split_unit s).1 < 2 ^ 63

unit_positive : (s : Text) → 0 < (split_unit s).1
unfolding split_unit
unit_positive s = ground arith

positive_bound : (o : Option ℕ) (n : ℕ) → positive o ≡ some (pos n) → n < 2 ^ 63
positive_bound none n e = cc
positive_bound (some m) n e = ground arith

negative_bound : (o : Option ℕ) (n : ℕ) → negative o ≡ some (pos n) → n < 2 ^ 63
negative_bound none n e = cc
negative_bound (some m) n e = ground arith

parse_int_bound : (s : Text) (n : ℕ) → parse_int s ≡ some (pos n) → n < 2 ^ 63
unfolding parse_int
parse_int_bound [] n e = cc
parse_int_bound (c ∷ cs) n e = elim (Bool-cases (c == b'-')) [
  | inl h ↦ negative_bound (unsigned cs) n (rw h at e)
  | inr h ↦ elim (Bool-cases (c == b'+')) [
    | inl k ↦ positive_bound (unsigned cs) n (rw (h, k) at e)
    | inr k ↦ positive_bound (unsigned (c ∷ cs)) n (rw (h, k) at e)
  ]
]

not_ltb→le : (a b : ℕ) → ltb a b ≡ false → b ≤ a
not_ltb→le a b h = ground arith

of_ok : {x y : ℤ} → ok x ≡ ok y → x ≡ y
of_ok h = cc

of_pos : {m n : ℕ} → pos m ≡ pos n → m ≡ n
of_pos h = cc

err-ne-ok : {x : SizeError} {z : ℤ} → ¬ (err x ≡ ok z)
err-ne-ok h = cc

product_fits :
    (n mult : ℕ)
    → 0 < mult
    → n < 2 ^ 63
    → (ltb 1 mult && ltb ((2 ^ 63 - 1) / mult) n) ≡ false
    → n * mult < 2 ^ 63
product_fits n mult big h e = elim (Bool-cases (ltb 1 mult)) [
  | inl k ↦
      let count : n ≤ (2 ^ 63 - 1) / mult = not_ltb→le ((2 ^ 63 - 1) / mult) n (rw k at e) in
      omega (arith, (le-div_iff_mul-le {k = mult} {x = n} {y = 2 ^ 63 - 1} big).0 count)
  | inr k ↦ let one : mult ≡ 1 = ground arith in rw (one, mul-one) h
]

within :
    (n mult : ℕ)
    → 0 < mult
    → n * mult < 2 ^ 63
    → (ltb 1 mult && ltb ((2 ^ 63 - 1) / mult) n) ≡ false
within n mult big h =
    let count : n ≤ (2 ^ 63 - 1) / mult =
      (le-div_iff_mul-le {k = mult} {x = n} {y = 2 ^ 63 - 1} big).1 (omega (arith, h)) in
    ground (arith, count)

-- What scale accepts.
abbrev IsScaled : Option ℤ → ℕ → ℤ → Type 0
IsScaled o mult z =
    (count : ℕ) × (o ≡ some (pos count)) × (z ≡ pos (count * mult)) × (count * mult < 2 ^ 63)

scale-IsScaled :
    (o : Option ℤ) (mult : ℕ) (z : ℤ)
    → 0 < mult
    → ((n : ℕ) → o ≡ some (pos n) → n < 2 ^ 63)
    → scale o mult ≡ ok z
    → IsScaled o mult z
unfolding scale
scale-IsScaled none mult z big bound e = cc
scale-IsScaled (some (negsuc n)) mult z big bound e = cc
scale-IsScaled (some (pos n)) mult z big bound e =
    elim (Bool-cases (ltb 1 mult && ltb ((2 ^ 63 - 1) / mult) n)) [
      | inl h ↦ absurd (err-ne-ok (rw h at e))
      | inr h ↦
          let fits = product_fits n mult big (bound n refl) h in
          (n, refl, sym (of_ok (rw h at e)) ∙ wrap64_small (n * mult) fits, fits)
    ]

scale-ok :
    (n mult : ℕ) → 0 < mult → n * mult < 2 ^ 63 → scale (some (pos n)) mult ≡ ok (pos (n * mult))
unfolding scale
scale-ok n mult big fits = rw (within n mult big fits) (ap ok (wrap64_small (n * mult) fits))

-- The texts that turn a cap off.
abbrev pub IsOff : Text → Type 0
IsOff s = (s ≡ []) ⊎ (s ≡ codes "0")

pub parse_size-IsSize :
    (raw : Text) (z : ℤ)
    → (parse_size raw ≡ ok z)
      ↔ ((IsOff (trim_space (to_upper raw)) × (z ≡ pos 0)) ⊎ IsSize (trim_space (to_upper raw)) z)
unfolding parse_size
parse_size-IsSize raw z = (accepted, taken (trim_space (to_upper raw)))
  where
    off : (s : Text) → (is_empty s || text_eq s (codes "0")) ≡ true → IsOff s
    off [] h = inl refl
    off (c ∷ cs) h = inr ((text_eq_iff (c ∷ cs) (codes "0")).0 h)

    nothing : (s : Text) → IsSize s z → IsOff s → z ≡ pos 0
    nothing s w (inl e) = absurd (none-ne-some _ (rw e at w.parsed))
    nothing s w (inr e) =
        let none_counted : 0 ≡ w.count = of_pos (of_some (rw e at w.parsed)) in
        w.product ∙ ap pos (rw (← none_counted) (zero-mul (split_unit s).1))

    accepted :
        parse_size raw ≡ ok z
        → (IsOff (trim_space (to_upper raw)) × (z ≡ pos 0)) ⊎ IsSize (trim_space (to_upper raw)) z
    accepted e =
        let s = trim_space (to_upper raw) in
        elim (Bool-cases (is_empty s || text_eq s (codes "0"))) [
          | inl h ↦ inl (off s h, sym (of_ok (rw h at e)))
          | inr h ↦
              let (count, parsed, product, fits) =
                scale-IsScaled (parse_int (trim_space (split_unit s).0)) (split_unit s).1 z
                  (unit_positive s) (parse_int_bound (trim_space (split_unit s).0)) (rw h at e) in
              inr (record {
                count = count;
                unit = split_unit-IsSplit s;
                parsed = parsed;
                product = product;
                fits = fits;
              })
        ]

    taken :
        (s : Text)
        → (IsOff s × (z ≡ pos 0)) ⊎ IsSize s z
        → (if is_empty s || text_eq s (codes "0")
            then ok (pos 0)
            else scale (parse_int (trim_space (split_unit s).0)) (split_unit s).1)
          ≡ ok z
    taken s (inl (inl e, zero)) = rw e (ap ok (sym zero))
    taken s (inl (inr e, zero)) = rw e (ap ok (sym zero))
    taken s (inr w) = elim (Bool-cases (is_empty s || text_eq s (codes "0"))) [
      | inl h ↦ rw h (ap ok (sym (nothing s w (off s h))))
      | inr h ↦
          rw (h, w.parsed)
            (scale-ok w.count (split_unit s).1 (unit_positive s) w.fits ∙ ap ok (sym w.product))
    ]
