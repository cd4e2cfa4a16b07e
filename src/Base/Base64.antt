-- ===== src/Base/Base64.antt =====
-- encoding/base64's StdEncoding, on lists of bytes.
pub mod Inverse
use Prim.Native.Nat.{ℕ, ◌+◌, ◌-◌, ◌*◌, ◌/◌, ◌%◌}
use mathlib.Core.Bool.{Bool, true, false, not, ◌&&◌, ◌||◌}
use mathlib.Core.Option.{Option, none, some}
use mathlib.Core.List.{List, [], ◌∷◌}
use plex_mirror.Base.Tests.{◌==◌, leb, ltb, if◌then◌else◌}
use plex_mirror.Base.Lists.{keep}
use plex_mirror.Base.Strings.{Text}

abbrev pub Bytes : Type 0
Bytes = List ℕ

-- The character of six bits.
unfoldable pub symbol : ℕ → ℕ
symbol i =
    if ltb i 26
    then b'A' + i
    else if ltb i 52
    then b'a' + (i - 26)
    else if ltb i 62
    then b'0' + (i - 52)
    else if i == 62
    then b'+'
    else b'/'

unfoldable pub sextet : ℕ → Option ℕ
sextet c =
    if leb b'A' c && leb c b'Z'
    then some (c - b'A')
    else if leb b'a' c && leb c b'z'
    then some (c - b'a' + 26)
    else if leb b'0' c && leb c b'9'
    then some (c - b'0' + 52)
    else if c == b'+'
    then some 62
    else if c == b'/'
    then some 63
    else none

unfoldable pub encode : Bytes → Text
unfolding symbol
encode [] = []
encode (a ∷ []) = symbol (a / 4) ∷ symbol (a % 4 * 16) ∷ b'=' ∷ b'=' ∷ []
encode (a ∷ b ∷ []) =
    symbol (a / 4) ∷ symbol (a % 4 * 16 + b / 16) ∷ symbol (b % 16 * 4) ∷ b'=' ∷ []
encode (a ∷ b ∷ c ∷ rest) =
    symbol (a / 4)
    ∷ symbol (a % 4 * 16 + b / 16)
    ∷ symbol (b % 16 * 4 + c / 64)
    ∷ symbol (c % 64)
    ∷ encode rest

infixl 5 ◌>>=◌
abbrev pub ◌>>=◌ {ℓ κ} : {A : Type ℓ} {B : Type κ} → Option A → (A → Option B) → Option B
none >>= f = none
some a >>= f = f a

-- The last four characters, which may end with one or two `=`. Bits that are left over are not
-- checked.
unfoldable pub last_quantum : ℕ → ℕ → ℕ → ℕ → Option Bytes
unfolding sextet
last_quantum p q r s = do
  x ← sextet p
  y ← sextet q
  if r == b'=' then (if s == b'=' then some ((x * 4 + y / 16) ∷ []) else none) else (do
    z ← sextet r
    if s == b'=' then some ((x * 4 + y / 16) ∷ (y % 16 * 16 + z / 4) ∷ []) else (do
      w ← sextet s
      some ((x * 4 + y / 16) ∷ (y % 16 * 16 + z / 4) ∷ (z % 4 * 64 + w) ∷ [])))

abbrev pub quantum : ℕ → ℕ → ℕ → ℕ → Option Bytes → Option Bytes
quantum p q r s rest = do
  x ← sextet p
  y ← sextet q
  z ← sextet r
  w ← sextet s
  bytes ← rest
  some ((x * 4 + y / 16) ∷ (y % 16 * 16 + z / 4) ∷ (z % 4 * 64 + w) ∷ bytes)

unfoldable pub decode_quanta : Text → Option Bytes
unfolding last_quantum sextet
decode_quanta [] = some []
decode_quanta (p ∷ q ∷ r ∷ s ∷ []) = last_quantum p q r s
decode_quanta (p ∷ q ∷ r ∷ s ∷ t ∷ rest) = quantum p q r s (decode_quanta (t ∷ rest))
decode_quanta _ = none

abbrev pub is_newline : ℕ → Bool
is_newline c = c == 10 || c == 13

-- StdEncoding.DecodeString: line ends are skipped.
unfoldable pub decode : Text → Option Bytes
unfolding decode_quanta keep
decode s = decode_quanta (keep (λ c. not (is_newline c)) s)
