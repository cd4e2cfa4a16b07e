-- ===== src/Base/Strings.antt =====
-- Go strings by their code points. A byte b that is no part of valid UTF-8 stands as the lone
-- surrogate 0xDC00 + b, so every byte string is such a list.
use Prim.Native.Nat.{ℕ, ◌+◌, ◌-◌}
use Prim.Native.Char.{code}
use Prim.Native.String.{String}
use mathlib.Core.Path.{◌≡◌, refl}
use mathlib.Core.Logic.{◌↔◌}
use mathlib.Core.Bool.{Bool, true, false, ◌&&◌, ◌||◌}
use mathlib.Core.List.{List, [], ◌∷◌, map, reverse}
use native.Mathlib.Omega.{arith}
use plex_mirror.Base.Tests.{◌==◌, leb, if◌then◌else◌}

abbrev pub Text : Type 0
Text = List ℕ

-- The code points of a literal.
abbrev pub codes : String → Text
codes String.[] = []
codes (String.◌∷◌ c s) = code c ∷ codes s

-- Go's `==` on strings.
unfoldable pub text_eq : Text → Text → Bool
text_eq [] [] = true
text_eq [] (d ∷ ds) = false
text_eq (c ∷ cs) [] = false
text_eq (c ∷ cs) (d ∷ ds) = c == d && text_eq cs ds

pub text_eq_iff : (s t : Text) → (text_eq s t ≡ true) ↔ (s ≡ t)
unfolding text_eq
text_eq_iff [] [] = ground arith
text_eq_iff [] (d ∷ ds) = ground arith
text_eq_iff (c ∷ cs) [] = ground arith
text_eq_iff (c ∷ cs) (d ∷ ds) = ground (arith, text_eq_iff cs ds)

pub text_eq_refl : (s : Text) → text_eq s s ≡ true
text_eq_refl s = (text_eq_iff s s).1 refl

abbrev pub is_empty : Text → Bool
is_empty [] = true
is_empty (c ∷ cs) = false

-- strings.HasPrefix, and strings.TrimPrefix
unfoldable pub has_prefix : Text → Text → Bool
has_prefix [] s = true
has_prefix (p ∷ ps) [] = false
has_prefix (p ∷ ps) (c ∷ cs) = p == c && has_prefix ps cs

abbrev pub drop_length : Text → Text → Text
drop_length [] s = s
drop_length (p ∷ ps) [] = []
drop_length (p ∷ ps) (c ∷ cs) = drop_length ps cs

unfoldable pub trim_prefix : Text → Text → Text
unfolding has_prefix
trim_prefix p s = if has_prefix p s then drop_length p s else s

-- strings.HasSuffix, and strings.TrimSuffix
unfoldable pub has_suffix : Text → Text → Bool
unfolding has_prefix
has_suffix p s = has_prefix (reverse p) (reverse s)

unfoldable pub trim_suffix : Text → Text → Text
unfolding trim_prefix
trim_suffix p s = reverse (trim_prefix (reverse p) (reverse s))

-- unicode.IsSpace
unfoldable pub is_space : ℕ → Bool
is_space c =
    (leb 9 c && leb c 13)
    || c == 32
    || c == 0x85
    || c == 0xA0
    || c == 0x1680
    || (leb 0x2000 c && leb c 0x200A)
    || c == 0x2028
    || c == 0x2029
    || c == 0x202F
    || c == 0x205F
    || c == 0x3000

-- strings.TrimLeftFunc and strings.TrimFunc
unfoldable pub trim_left : (ℕ → Bool) → Text → Text
trim_left p [] = []
trim_left p (c ∷ cs) = let rest = trim_left p cs in if p c then rest else c ∷ cs

unfoldable pub trim_right : (ℕ → Bool) → Text → Text
unfolding trim_left
trim_right p s = reverse (trim_left p (reverse s))

unfoldable pub trim_func : (ℕ → Bool) → Text → Text
unfolding trim_right
trim_func p s = trim_right p (trim_left p s)

unfoldable pub trim_space : Text → Text
unfolding trim_func is_space
trim_space s = trim_func is_space s

-- strings.ToUpper and strings.ToLower on ASCII letters.
unfoldable pub upper : ℕ → ℕ
upper c = if leb b'a' c && leb c b'z' then c - 32 else c

unfoldable pub lower : ℕ → ℕ
lower c = if leb b'A' c && leb c b'Z' then c + 32 else c

unfoldable pub to_upper : Text → Text
unfolding upper
to_upper s = map upper s

unfoldable pub to_lower : Text → Text
unfolding lower
to_lower s = map lower s
