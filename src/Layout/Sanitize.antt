-- ===== src/Layout/Sanitize.antt =====
-- sanitize of internal/download/layout.go.
pub mod Safe
pub mod Bounded
pub mod Headed
use plex_mirror.Base.{
  ℕ, zero, suc, ◌+◌, ◌-◌, ◌/◌, ◌%◌, Bool, true, false, ◌&&◌, ◌||◌, [], ◌∷◌, ◌++◌, map,
  if◌then◌else◌, ◌==◌, ltb, leb, Text, codes, is_space, trim_func, trim_right,
}

-- strings.ReplaceAll(s, ": ", " - ")
unfoldable pub replace_colon : Text → Text
replace_colon [] = []
replace_colon (c ∷ []) = c ∷ []
replace_colon (c ∷ d ∷ cs) =
    let hit = codes " - " ++ replace_colon cs in
    let miss = c ∷ replace_colon (d ∷ cs) in if c == b':' && d == b' ' then hit else miss

-- The runes of a `for range`: a stray byte reads as U+FFFD.
abbrev pub rune : ℕ → ℕ
rune c = if leb 0xDC80 c && leb c 0xDCFF then 0xFFFD else c

abbrev member : ℕ → Text → Bool
member c [] = false
member c (d ∷ ds) = c == d || member c ds

abbrev pub forbidden : ℕ → Bool
forbidden c = member c (codes "/\\:*?\"<>|")

abbrev pub is_control : ℕ → Bool
is_control c = ltb c 0x20 || c == 0x7F

-- The loop over the runes.
unfoldable pub scrub : Bool → Text → Text
unfolding is_space
scrub prev_space [] = []
scrub prev_space (r ∷ rs) =
    let spaced = scrub true rs in
    let dropped = scrub prev_space rs in
    let written = scrub false rs in
    if is_space r
    then if prev_space then spaced else b' ' ∷ spaced
    else if is_control r
    then dropped
    else if forbidden r
    then b'-' ∷ written
    else r ∷ written

-- How many bytes a code point takes in UTF-8.
abbrev pub width : ℕ → ℕ
width c =
    if ltb c 0x80 || (leb 0xDC80 c && leb c 0xDCFF)
    then 1
    else if ltb c 0x800
    then 2
    else if ltb c 0x10000
    then 3
    else 4

unfoldable pub byte_length : Text → ℕ
byte_length [] = 0
byte_length (c ∷ cs) = width c + byte_length cs

-- The bytes of a code point of more than one byte, each as a stray byte.
abbrev pub stray_bytes : ℕ → Text
stray_bytes c =
    if ltb c 0x800
    then (0xDCC0 + c / 0x40) ∷ (0xDC80 + c % 0x40) ∷ []
    else if ltb c 0x10000
    then (0xDCE0 + c / 0x1000) ∷ (0xDC80 + c / 0x40 % 0x40) ∷ (0xDC80 + c % 0x40) ∷ []
    else (0xDCF0 + c / 0x40000)
      ∷ (0xDC80 + c / 0x1000 % 0x40)
      ∷ (0xDC80 + c / 0x40 % 0x40)
      ∷ (0xDC80 + c % 0x40)
      ∷ []

abbrev pub first : ℕ → Text → Text
first zero s = []
first (suc n) [] = []
first (suc n) (c ∷ cs) = c ∷ first n cs

-- s[:n] cuts between bytes, also within a rune.
unfoldable pub take_bytes : ℕ → Text → Text
take_bytes n [] = []
take_bytes n (c ∷ cs) =
    let rest = take_bytes (n - width c) cs in
    if leb (width c) n then c ∷ rest else first n (stray_bytes c)

abbrev pub trimmed : ℕ → Bool
trimmed c = c == b'.' || is_space c

abbrev pub space_or_dot : ℕ → Bool
space_or_dot c = c == b' ' || c == b'.'

unfoldable pub sanitize : Text → Text
unfolding replace_colon scrub trim_func byte_length take_bytes trim_right is_space
sanitize s =
    let out = trim_func trimmed (scrub false (map rune (replace_colon s))) in
    if ltb 200 (byte_length out) then trim_right space_or_dot (take_bytes 200 out) else out
