-- ===== src/Base/Base64/Inverse.antt =====
-- encoding/base64's StdEncoding: decoding what was encoded.
use Prim.Native.Nat.{ℕ, ◌<◌, ◌+◌, ◌*◌, ◌/◌, ◌%◌}
use mathlib.Core.Path.{◌≡◌, refl, ap, ◌∙◌}
use mathlib.Core.Bool.{Bool, true, false, not}
use mathlib.Core.Option.{Option, none, some}
use mathlib.Core.List.{[], ◌∷◌}
use native.Mathlib.Omega.{arith}
use plex_mirror.Base.Tests.{◌==◌}
use plex_mirror.Base.Lists.{All, keep}
use plex_mirror.Base.Strings.{Text}
use plex_mirror.Base.Base64.{
  Bytes, symbol, sextet, encode, decode_quanta, last_quantum, quantum, is_newline, decode, ◌>>=◌,
}

abbrev pub IsByte : ℕ → Type 0
IsByte b = b < 256

sextet-symbol : (i : ℕ) → i < 64 → sextet (symbol i) ≡ some i
unfolding sextet symbol
sextet-symbol i h = ground arith

symbol-ne-pad : (i : ℕ) → i < 64 → (symbol i == b'=') ≡ false
unfolding symbol
symbol-ne-pad i h = ground arith

symbol-ne-newline : (i : ℕ) → i < 64 → is_newline (symbol i) ≡ false
unfolding symbol
symbol-ne-newline i h = ground arith

plain : (i : ℕ) → i < 64 → not (is_newline (symbol i)) ≡ true
plain i h = rw (symbol-ne-newline i h)

keep-All : (p : ℕ → Bool) (s : Text) → All (λ c. p c ≡ true) s → keep p s ≡ s
unfolding keep
keep-All p [] h = refl
keep-All p (c ∷ s) h = rw h.0 (ap (◌∷◌ c) (keep-All p s h.1))

-- The bytes that the sextets of a group give back.
module _ (a b : ℕ) (hb : IsByte b) where
  first_byte : a / 4 * 4 + (a % 4 * 16 + b / 16) / 16 ≡ a
  first_byte = omega arith

  second_byte : (x : ℕ) → x < 4 → (a % 4 * 16 + b / 16) % 16 * 16 + (b % 16 * 4 + x) / 4 ≡ b
  second_byte x h = omega arith

third_byte : (b c : ℕ) → IsByte c → (b % 16 * 4 + c / 64) % 4 * 64 + c % 64 ≡ c
third_byte b c h = omega arith

module _ (a b c : ℕ) (ha : IsByte a) (hb : IsByte b) (hc : IsByte c) where
  quantum-symbols :
      (rest : Option Bytes)
      → quantum
          (symbol (a / 4))
          (symbol (a % 4 * 16 + b / 16))
          (symbol (b % 16 * 4 + c / 64))
          (symbol (c % 64))
          rest
        ≡ (rest >>= λ bytes. some (a ∷ b ∷ c ∷ bytes))
  quantum-symbols rest =
      rw
        (
          sextet-symbol (a / 4) (omega arith),
          sextet-symbol (a % 4 * 16 + b / 16) (omega arith),
          sextet-symbol (b % 16 * 4 + c / 64) (omega arith),
          sextet-symbol (c % 64) (omega arith),
        )
        (bytes rest)
    where
      bytes :
          (rest : Option Bytes)
          → (rest >>= λ bs. some (
              (a / 4 * 4 + (a % 4 * 16 + b / 16) / 16)
              ∷ ((a % 4 * 16 + b / 16) % 16 * 16 + (b % 16 * 4 + c / 64) / 4)
              ∷ ((b % 16 * 4 + c / 64) % 4 * 64 + c % 64)
              ∷ bs))
            ≡ (rest >>= λ bs. some (a ∷ b ∷ c ∷ bs))
      bytes none = refl
      bytes (some bs) =
          rw (first_byte a b hb, second_byte a b hb (c / 64) (omega arith), third_byte b c hc) refl

  last_quantum-symbols :
      last_quantum
        (symbol (a / 4))
        (symbol (a % 4 * 16 + b / 16))
        (symbol (b % 16 * 4 + c / 64))
        (symbol (c % 64))
      ≡ some (a ∷ b ∷ c ∷ [])
  unfolding last_quantum
  last_quantum-symbols =
      rw
        (
          sextet-symbol (a / 4) (omega arith),
          sextet-symbol (a % 4 * 16 + b / 16) (omega arith),
          sextet-symbol (b % 16 * 4 + c / 64) (omega arith),
          sextet-symbol (c % 64) (omega arith),
          symbol-ne-pad (b % 16 * 4 + c / 64) (omega arith),
          symbol-ne-pad (c % 64) (omega arith),
        )
        (rw (first_byte a b hb, second_byte a b hb (c / 64) (omega arith), third_byte b c hc) refl)

last_quantum-two :
    (a b : ℕ)
    → IsByte a
    → IsByte b
    → last_quantum (symbol (a / 4)) (symbol (a % 4 * 16 + b / 16)) (symbol (b % 16 * 4)) b'='
      ≡ some (a ∷ b ∷ [])
unfolding last_quantum
last_quantum-two a b ha hb =
    rw
      (
        sextet-symbol (a / 4) (omega arith),
        sextet-symbol (a % 4 * 16 + b / 16) (omega arith),
        sextet-symbol (b % 16 * 4) (omega arith),
        symbol-ne-pad (b % 16 * 4) (omega arith),
      )
      (rw (first_byte a b hb, last_byte) refl)
  where
    last_byte : (a % 4 * 16 + b / 16) % 16 * 16 + b % 16 * 4 / 4 ≡ b
    last_byte = omega arith

last_quantum-one :
    (a : ℕ)
    → IsByte a
    → last_quantum (symbol (a / 4)) (symbol (a % 4 * 16)) b'=' b'=' ≡ some (a ∷ [])
unfolding last_quantum
last_quantum-one a ha =
    rw (sextet-symbol (a / 4) (omega arith), sextet-symbol (a % 4 * 16) (omega arith))
      (rw only_byte refl)
  where
    only_byte : a / 4 * 4 + a % 4 * 16 / 16 ≡ a
    only_byte = omega arith

quantum-step :
    (p q r s d : ℕ) (rest : Bytes)
    → decode_quanta (p ∷ q ∷ r ∷ s ∷ encode (d ∷ rest))
      ≡ quantum p q r s (decode_quanta (encode (d ∷ rest)))
unfolding decode_quanta encode
quantum-step p q r s d [] = refl
quantum-step p q r s d (e ∷ []) = refl
quantum-step p q r s d (e ∷ f ∷ rest) = refl

decode_quanta-encode : (s : Bytes) → All IsByte s → decode_quanta (encode s) ≡ some s
unfolding decode_quanta encode
decode_quanta-encode [] h = refl
decode_quanta-encode (a ∷ []) h = last_quantum-one a h.0
decode_quanta-encode (a ∷ b ∷ []) h = last_quantum-two a b h.0 h.1.0
decode_quanta-encode (a ∷ b ∷ c ∷ []) h = last_quantum-symbols a b c h.0 h.1.0 h.1.1.0
decode_quanta-encode (a ∷ b ∷ c ∷ d ∷ rest) h =
    quantum-step (symbol (a / 4)) (symbol (a % 4 * 16 + b / 16)) (symbol (b % 16 * 4 + c / 64))
      (symbol (c % 64)) d rest
    ∙ quantum-symbols a b c h.0 h.1.0 h.1.1.0 (decode_quanta (encode (d ∷ rest)))
    ∙ rw (decode_quanta-encode (d ∷ rest) h.1.1.1) refl

encode-plain : (s : Bytes) → All IsByte s → All (λ c. not (is_newline c) ≡ true) (encode s)
unfolding encode
encode-plain [] h = tt
encode-plain (a ∷ []) h =
    (plain (a / 4) (omega arith), (plain (a % 4 * 16) (omega arith), (refl, (refl, tt))))
encode-plain (a ∷ b ∷ []) h = (
  plain (a / 4) (omega arith),
  (plain (a % 4 * 16 + b / 16) (omega arith), (plain (b % 16 * 4) (omega arith), (refl, tt))),
)
encode-plain (a ∷ b ∷ c ∷ rest) h = (
  plain (a / 4) (omega arith),
  (
    plain (a % 4 * 16 + b / 16) (omega arith),
    (
      plain (b % 16 * 4 + c / 64) (omega arith),
      (plain (c % 64) (omega arith), encode-plain rest h.1.1.1),
    ),
  ),
)

pub decode-encode : (s : Bytes) → All IsByte s → decode (encode s) ≡ some s
unfolding decode
decode-encode s h =
    rw (keep-All (λ c. not (is_newline c)) (encode s) (encode-plain s h)) (decode_quanta-encode s h)
