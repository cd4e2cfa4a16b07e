-- ===== src/Layout/Sanitize/Headed.antt =====
-- sanitize of internal/download/layout.go: how the name that it makes begins.
use mathlib.Core.List.{reverse, reverse-append, reverse-reverse}
use plex_mirror.Base.{
  ℕ, zero, suc, ◌≡◌, ◌≤◌, refl, sym, ap, ◌∙◌, inl, inr, Bool, false, [], ◌∷◌, ◌++◌, map, arith,
  ◌==◌, ltb, leb, Text, All, Bool-cases, trim_left, trim_right, trim_func,
}
use plex_mirror.Layout.Sanitize.{
  rune, scrub, width, stray_bytes, first, take_bytes, trimmed, space_or_dot, replace_colon,
  byte_length, sanitize,
}
use plex_mirror.Layout.Sanitize.Safe.{stray_bytes-All}

-- A name that does not begin with a dot.
abbrev pub IsHeaded : Text → Type 0
IsHeaded [] = Unit
IsHeaded (c ∷ cs) = (c == b'.') ≡ false

IsHeaded-part : (s w : Text) → IsHeaded (s ++ w) → IsHeaded s
IsHeaded-part [] w h = tt
IsHeaded-part (c ∷ cs) w h = h

module _ (p : ℕ → Bool) where
  trim_left-suffix : (s : Text) → (u : Text) × (u ++ trim_left p s ≡ s)
  unfolding trim_left
  trim_left-suffix [] = ([], refl)
  trim_left-suffix (c ∷ cs) = elim (Bool-cases (p c)) [
    | inl e ↦ let (u, q) = trim_left-suffix cs in rw e (c ∷ u, ap (λ (t : Text). c ∷ t) q)
    | inr e ↦ rw e ([], refl)
  ]

  trim_right-prefix : (s : Text) → (w : Text) × (trim_right p s ++ w ≡ s)
  unfolding trim_right
  trim_right-prefix s =
      let (u, q) = trim_left-suffix (reverse s) in
      (
        reverse u,
        sym (reverse-append u (trim_left p (reverse s))) ∙ ap reverse q ∙ reverse-reverse s,
      )

  trim_right-IsHeaded : (s : Text) → IsHeaded s → IsHeaded (trim_right p s)
  trim_right-IsHeaded s h =
      let (w, q) = trim_right-prefix s in IsHeaded-part (trim_right p s) w (rw q h)

trim_left-IsHeaded : (s : Text) → IsHeaded (trim_left trimmed s)
unfolding trim_left
trim_left-IsHeaded [] = tt
trim_left-IsHeaded (c ∷ cs) = elim (Bool-cases (trimmed c)) [
  | inl e ↦ rw e (trim_left-IsHeaded cs)
  | inr e ↦ rw e (ground (arith, e))
]

first-IsHeaded : (n c : ℕ) → IsHeaded (first n (stray_bytes c))
first-IsHeaded zero c = tt
first-IsHeaded (suc n) c = head (stray_bytes c) (stray_bytes-All c)
  where
    head : (s : Text) → All (λ x. 128 ≤ x) s → IsHeaded (first (suc n) s)
    head [] h = tt
    head (c ∷ cs) h = ground (arith, h.0)

take_bytes-IsHeaded : (n : ℕ) (s : Text) → IsHeaded s → IsHeaded (take_bytes n s)
unfolding take_bytes
take_bytes-IsHeaded n [] h = tt
take_bytes-IsHeaded n (c ∷ cs) h = elim (Bool-cases (leb (width c) n)) [
  | inl e ↦ rw e h
  | inr e ↦ rw e (first-IsHeaded n c)
]

-- The name that sanitize makes does not begin with a dot, also where it was cut.
pub sanitize-IsHeaded : (s : Text) → IsHeaded (sanitize s)
unfolding sanitize trim_func
sanitize-IsHeaded s = elim (Bool-cases (ltb 200 (byte_length out))) [
  | inl e ↦
      rw e
        (trim_right-IsHeaded space_or_dot (take_bytes 200 out) (take_bytes-IsHeaded 200 out headed))
  | inr e ↦ rw e headed
]
  where
    out : Text
    out = trim_func trimmed (scrub false (map rune (replace_colon s)))

    headed : IsHeaded out
    headed =
        trim_right-IsHeaded trimmed (trim_left trimmed (scrub false (map rune (replace_colon s))))
          (trim_left-IsHeaded (scrub false (map rune (replace_colon s))))
