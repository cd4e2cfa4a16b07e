-- ===== src/Layout/Sanitize/Bounded.antt =====
-- sanitize of internal/download/layout.go: how long a name it leaves.
use mathlib.Core.List.{reverse, reverse-cons}
use plex_mirror.Base.{
  ℕ, zero, suc, ◌+◌, ◌-◌, ◌/◌, ◌%◌, ◌<◌, ◌≤◌, ◌≡◌, refl, ◌&&◌, Bool, true, false, inl, inr, [], ◌∷◌,
  ◌++◌, map, arith, ltb, leb, ◌==◌, Text, All, Bool-cases, is_space, trim_left, trim_right,
  trim_func,
}
use plex_mirror.Layout.Sanitize.{
  rune, forbidden, is_control, scrub, width, stray_bytes, first, take_bytes, trimmed, space_or_dot,
  replace_colon, byte_length, sanitize,
}
use plex_mirror.Layout.Sanitize.Safe.{All-trim_func}

-- The code points of Unicode.
abbrev pub IsRune : ℕ → Type 0
IsRune c = c < 0x110000

byte_length-append : (s t : Text) → byte_length (s ++ t) ≡ byte_length s + byte_length t
unfolding byte_length
byte_length-append [] t = omega arith
byte_length-append (c ∷ cs) t = omega (arith, byte_length-append cs t)

byte_length-reverse : (s : Text) → byte_length (reverse s) ≡ byte_length s
unfolding byte_length
byte_length-reverse [] = refl
byte_length-reverse (c ∷ cs) =
    rw (reverse-cons c cs, byte_length-append (reverse cs) (c ∷ []))
      (omega (arith, byte_length-reverse cs))

byte_length-trim_left : (p : ℕ → Bool) (s : Text) → byte_length (trim_left p s) ≤ byte_length s
unfolding trim_left byte_length
byte_length-trim_left p [] = omega arith
byte_length-trim_left p (c ∷ cs) = elim (Bool-cases (p c)) [
  | inl e ↦ rw e (omega (arith, byte_length-trim_left p cs))
  | inr e ↦ rw e (omega arith)
]

byte_length-trim_right : (p : ℕ → Bool) (s : Text) → byte_length (trim_right p s) ≤ byte_length s
unfolding trim_right
byte_length-trim_right p s =
    rw (byte_length-reverse (trim_left p (reverse s)))
      (omega (arith, byte_length-trim_left p (reverse s), byte_length-reverse s))

-- A stray byte.
abbrev IsByte : ℕ → Type 0
IsByte c = width c ≡ 1

byte_length-first : (n : ℕ) (s : Text) → All IsByte s → byte_length (first n s) ≤ n
unfolding byte_length
byte_length-first zero s h = omega arith
byte_length-first (suc n) [] h = omega arith
byte_length-first (suc n) (c ∷ cs) h = omega (arith, h.0, byte_length-first n cs h.1)

stray_bytes-IsByte : (c : ℕ) → IsRune c → All IsByte (stray_bytes c)
stray_bytes-IsByte c h = elim (Bool-cases (ltb c 0x800)) [
  | inl e ↦ rw e (lead (c / 0x40) 0x40 (ground arith), (tail c, tt))
  | inr e ↦ elim (Bool-cases (ltb c 0x10000)) [
    | inl f ↦ rw (e, f) (lead (c / 0x1000) 0x60 (ground arith), (tail (c / 0x40), (tail c, tt)))
    | inr f ↦
        rw (e, f)
          (
            lead (c / 0x40000) 0x70 (ground arith),
            (tail (c / 0x1000), (tail (c / 0x40), (tail c, tt))),
          )
  ]
]
  where
    lead : (x k : ℕ) → k + x < 0x80 → IsByte (0xDC80 + k + x)
    lead x k below = ground arith

    tail : (x : ℕ) → IsByte (0xDC80 + x % 0x40)
    tail x = lead (x % 0x40) 0 (omega arith)

byte_length-take_bytes : (s : Text) (n : ℕ) → All IsRune s → byte_length (take_bytes n s) ≤ n
unfolding take_bytes byte_length
byte_length-take_bytes [] n h = omega arith
byte_length-take_bytes (c ∷ cs) n h = elim (Bool-cases (leb (width c) n)) [
  | inl e ↦ rw e (ground (arith, byte_length-take_bytes cs (n - width c) h.1))
  | inr e ↦ rw e (byte_length-first n (stray_bytes c) (stray_bytes-IsByte c h.0))
]

replace_colon-IsRune : (s : Text) → All IsRune s → All IsRune (replace_colon s)
unfolding replace_colon
replace_colon-IsRune [] h = tt
replace_colon-IsRune (c ∷ []) h = h
replace_colon-IsRune (c ∷ d ∷ cs) h = elim (Bool-cases (c == b':' && d == b' ')) [
  | inl e ↦ rw e (omega arith, (omega arith, (omega arith, replace_colon-IsRune cs h.1.1)))
  | inr e ↦ rw e (h.0, replace_colon-IsRune (d ∷ cs) h.1)
]

map-rune-IsRune : (s : Text) → All IsRune s → All IsRune (map rune s)
map-rune-IsRune [] h = tt
map-rune-IsRune (c ∷ cs) h = (ground (arith, h.0), map-rune-IsRune cs h.1)

scrub-IsRune : (prev_space : Bool) (s : Text) → All IsRune s → All IsRune (scrub prev_space s)
unfolding scrub
scrub-IsRune prev_space [] h = tt
scrub-IsRune prev_space (r ∷ rs) h = elim (Bool-cases (is_space r)) [
  | inl e ↦ elim (Bool-cases prev_space) [
    | inl f ↦ rw (e, f) (scrub-IsRune true rs h.1)
    | inr f ↦ rw (e, f) (omega arith, scrub-IsRune true rs h.1)
  ]
  | inr e ↦ elim (Bool-cases (is_control r)) [
    | inl f ↦ rw (e, f) (scrub-IsRune prev_space rs h.1)
    | inr f ↦ elim (Bool-cases (forbidden r)) [
      | inl g ↦ rw (e, f, g) (omega arith, scrub-IsRune false rs h.1)
      | inr g ↦ rw (e, f, g) (h.0, scrub-IsRune false rs h.1)
    ]
  ]
]

not_above : (m n : ℕ) → ltb m n ≡ false → n ≤ m
not_above m n e = ground arith

-- The name that sanitize makes of a string of Unicode code points and stray bytes takes at most 200
-- bytes, also where the cut falls inside a character.
pub sanitize-bounded : (s : Text) → All IsRune s → byte_length (sanitize s) ≤ 200
unfolding sanitize
sanitize-bounded s h = elim (Bool-cases (ltb 200 (byte_length out))) [
  | inl e ↦ rw e (
      omega (
        arith,
        byte_length-trim_right space_or_dot (take_bytes 200 out),
        byte_length-take_bytes out 200 runes,
      ))
  | inr e ↦ rw e (not_above 200 (byte_length out) e)
]
  where
    scrubbed : Text
    scrubbed = scrub false (map rune (replace_colon s))

    out : Text
    out = trim_func trimmed scrubbed

    runes : All IsRune out
    runes = All-trim_func IsRune trimmed scrubbed (
        scrub-IsRune false (map rune (replace_colon s))
          (map-rune-IsRune (replace_colon s) (replace_colon-IsRune s h)))
