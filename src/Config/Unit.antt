-- ===== src/Config/Unit.antt =====
-- The units of ParseSize in internal/config/config.go.
use mathlib.Core.List.{append-nil, reverse, reverse-append, reverse-reverse}
use plex_mirror.Base.{
  ℕ, ◌^◌, ◌≡◌, refl, sym, ap, ◌∙◌, inl, inr, true, [], ◌∷◌, ◌++◌, if◌then◌else◌, arith, Bool-cases,
  Text, codes, has_prefix, has_suffix, trim_prefix, trim_suffix, drop_length,
}
use plex_mirror.Config.{split_unit}

-- A unit and its bytes.
pub data IsUnit : Text → ℕ → Type 0 where
  terabytes : IsUnit (codes "TB") (2 ^ 40)
  gigabytes : IsUnit (codes "GB") (2 ^ 30)
  megabytes : IsUnit (codes "MB") (2 ^ 20)
  kilobytes : IsUnit (codes "KB") (2 ^ 10)
  tera : IsUnit (codes "T") (2 ^ 40)
  giga : IsUnit (codes "G") (2 ^ 30)
  mega : IsUnit (codes "M") (2 ^ 20)
  kilo : IsUnit (codes "K") (2 ^ 10)
  bytes : IsUnit [] 1

-- A text is a number before a unit.
abbrev pub IsSplit : Text → Text × ℕ → Type 0
IsSplit s (number, mult) = (suffix : Text) × (number ++ suffix ≡ s) × IsUnit suffix mult

has_prefix-drop : (p s : Text) → has_prefix p s ≡ true → p ++ drop_length p s ≡ s
unfolding has_prefix
has_prefix-drop [] s h = refl
has_prefix-drop (p ∷ ps) [] h = cc
has_prefix-drop (p ∷ ps) (c ∷ cs) h =
    let same : p ≡ c = ground (arith, h) in
    let rest : has_prefix ps cs ≡ true = ground (arith, h) in
    rw same (ap (c ∷◌) (has_prefix-drop ps cs rest))

has_suffix-trim : (p s : Text) → has_suffix p s ≡ true → trim_suffix p s ++ p ≡ s
unfolding has_suffix trim_suffix trim_prefix
has_suffix-trim p s h = rw h (
    ap (λ xs. reverse (drop_length (reverse p) (reverse s)) ++ xs) (sym (reverse-reverse p))
    ∙ sym (reverse-append (reverse p) (drop_length (reverse p) (reverse s)))
    ∙ ap reverse (has_prefix-drop (reverse p) (reverse s) h)
    ∙ reverse-reverse s)

cut-IsSplit :
    (suffix : Text) (mult : ℕ) (s : Text) (rest : Text × ℕ)
    → IsUnit suffix mult
    → IsSplit s rest
    → IsSplit s (if has_suffix suffix s then (trim_suffix suffix s, mult) else rest)
cut-IsSplit suffix mult s rest unit h = elim (Bool-cases (has_suffix suffix s)) [
  | inl p ↦ rw p (suffix, has_suffix-trim suffix s p, unit)
  | inr p ↦ rw p h
]

pub split_unit-IsSplit : (s : Text) → IsSplit s (split_unit s)
unfolding split_unit
split_unit-IsSplit s = cut-IsSplit (codes "TB") (2 ^ 40) s _ terabytes (
    cut-IsSplit (codes "GB") (2 ^ 30) s _ gigabytes (
      cut-IsSplit (codes "MB") (2 ^ 20) s _ megabytes (
        cut-IsSplit (codes "KB") (2 ^ 10) s _ kilobytes (
          cut-IsSplit (codes "T") (2 ^ 40) s _ tera (
            cut-IsSplit (codes "G") (2 ^ 30) s _ giga (
              cut-IsSplit (codes "M") (2 ^ 20) s _ mega
                (cut-IsSplit (codes "K") (2 ^ 10) s _ kilo ([], append-nil s, bytes))))))))
