-- ===== src/Layout/Sanitize/Safe.antt =====
-- sanitize of internal/download/layout.go: the characters that it leaves.
use mathlib.Core.List.{reverse}
use plex_mirror.Base.{
  ℕ, zero, suc, ◌+◌, ◌/◌, ◌%◌, ◌≤◌, ◌≡◌, refl, ◌-◌, Bool, true, false, inl, inr, [], ◌∷◌, map,
  arith, ltb, leb, Text, All, All-map, All-reverse, Bool-cases, is_space, trim_left, trim_right,
  trim_func,
}
use plex_mirror.Layout.Sanitize.{
  rune, forbidden, is_control, scrub, width, stray_bytes, first, take_bytes, trimmed, space_or_dot,
  replace_colon, byte_length, sanitize,
}

-- A character that a file name may hold.
abbrev pub IsSafe : ℕ → Type 0
IsSafe c = (forbidden c ≡ false) × (is_control c ≡ false)

IsSafe-high : (c : ℕ) → 128 ≤ c → IsSafe c
IsSafe-high c h = ground arith

module _ (P : ℕ → Type 0) where
  pub All-trim_left : (p : ℕ → Bool) (s : Text) → All P s → All P (trim_left p s)
  unfolding trim_left
  All-trim_left p [] h = tt
  All-trim_left p (c ∷ cs) h = elim (Bool-cases (p c)) [
    | inl e ↦ rw e (All-trim_left p cs h.1)
    | inr e ↦ rw e h
  ]

  All-trim_right : (p : ℕ → Bool) (s : Text) → All P s → All P (trim_right p s)
  unfolding trim_right
  All-trim_right p s h =
      All-reverse P (trim_left p (reverse s)) (All-trim_left p (reverse s) (All-reverse P s h))

  pub All-trim_func : (p : ℕ → Bool) (s : Text) → All P s → All P (trim_func p s)
  unfolding trim_func
  All-trim_func p s h = All-trim_right p (trim_left p s) (All-trim_left p s h)

  pub All-first : (n : ℕ) (s : Text) → All P s → All P (first n s)
  All-first zero s h = tt
  All-first (suc n) [] h = tt
  All-first (suc n) (c ∷ cs) h = (h.0, All-first n cs h.1)

scrub-All : (prev_space : Bool) (s : Text) → All IsSafe (scrub prev_space s)
unfolding scrub
scrub-All prev_space [] = tt
scrub-All prev_space (r ∷ rs) = elim (Bool-cases (is_space r)) [
  | inl e ↦ elim (Bool-cases prev_space) [
    | inl f ↦ rw (e, f) (scrub-All true rs)
    | inr f ↦ rw (e, f) ((refl, refl), scrub-All true rs)
  ]
  | inr e ↦ elim (Bool-cases (is_control r)) [
    | inl f ↦ rw (e, f) (scrub-All prev_space rs)
    | inr f ↦ elim (Bool-cases (forbidden r)) [
      | inl g ↦ rw (e, f, g) ((refl, refl), scrub-All false rs)
      | inr g ↦ rw (e, f, g) ((g, f), scrub-All false rs)
    ]
  ]
]

pub stray_bytes-All : (c : ℕ) → All (λ x. 128 ≤ x) (stray_bytes c)
stray_bytes-All c = elim (Bool-cases (ltb c 0x800)) [
  | inl e ↦ rw e (lead (c / 0x40) 0x40, (tail c, tt))
  | inr e ↦ elim (Bool-cases (ltb c 0x10000)) [
    | inl f ↦ rw (e, f) (lead (c / 0x1000) 0x60, (tail (c / 0x40), (tail c, tt)))
    | inr f ↦
        rw (e, f) (lead (c / 0x40000) 0x70, (tail (c / 0x1000), (tail (c / 0x40), (tail c, tt))))
  ]
]
  where
    lead : (x k : ℕ) → 128 ≤ 0xDC80 + k + x
    lead x k = omega arith

    tail : (x : ℕ) → 128 ≤ 0xDC80 + x % 0x40
    tail x = omega arith

stray_bytes-IsSafe : (c : ℕ) → All IsSafe (stray_bytes c)
stray_bytes-IsSafe c = All-map (λ x. 128 ≤ x) IsSafe IsSafe-high (stray_bytes c) (stray_bytes-All c)

take_bytes-All : (s : Text) (n : ℕ) → All IsSafe s → All IsSafe (take_bytes n s)
unfolding take_bytes
take_bytes-All [] n h = tt
take_bytes-All (c ∷ cs) n h = elim (Bool-cases (leb (width c) n)) [
  | inl e ↦ rw e (h.0, take_bytes-All cs (n - width c) h.1)
  | inr e ↦ rw e (All-first IsSafe n (stray_bytes c) (stray_bytes-IsSafe c))
]

-- Whatever the title, the name that sanitize makes of it holds no path separator, no other
-- character of the forbidden set and no control character, also where it was cut at 200 bytes.
pub sanitize-IsSafe : (s : Text) → All IsSafe (sanitize s)
unfolding sanitize
sanitize-IsSafe s = elim (Bool-cases (ltb 200 (byte_length out))) [
  | inl e ↦
      rw e (All-trim_right IsSafe space_or_dot (take_bytes 200 out) (take_bytes-All out 200 safe))
  | inr e ↦ rw e safe
]
  where
    out : Text
    out = trim_func trimmed (scrub false (map rune (replace_colon s)))

    safe : All IsSafe out
    safe =
        All-trim_func IsSafe trimmed (scrub false (map rune (replace_colon s)))
          (scrub-All false (map rune (replace_colon s)))
