-- ===== src/Settings/Crypto.antt =====
-- internal/settings/crypto.go: secrets at rest. AES-GCM, scrypt and SHA-256 are parameters, also on
-- the bytes of a string; so is the nonce that the random source gives, none where it fails.
pub mod Inverse
use plex_mirror.Base.{
  ℕ, Bool, true, false, not, Option, none, some, List, [], ◌∷◌, ◌++◌, if◌then◌else◌, ltb, or_else,
  length, take, drop, Text, codes, is_empty, has_prefix, trim_prefix,
}
use plex_mirror.Base.Base64.{Bytes, encode, decode}

pub record Cipher : Type 0 where
  -- aes.NewCipher and cipher.NewGCM take a key of this length.
  pub accepts : Bytes → Bool
  pub nonce_size : ℕ
  -- gcm.Seal and gcm.Open by the key and the nonce
  pub seal : Bytes → Bytes → Text → Bytes
  pub unseal : Bytes → Bytes → Bytes → Option Text
  -- scrypt.Key at the constant work factors
  pub scrypt : Text → Bytes → Option Bytes
  pub sum256 : Text → Bytes → Bytes

pub data CryptoError : Type 0 where
  bad_key no_nonce key_not_set not_base64 too_short wrong_key : CryptoError

pub data Crypt {ℓ} (A : Type ℓ) : Type ℓ where
  ok : A → Crypt A
  err : CryptoError → Crypt A

infixl 5 ◌>>=◌ ◌>>◌
abbrev pub ◌>>=◌ {ℓ κ} : {A : Type ℓ} {B : Type κ} → Crypt A → (A → Crypt B) → Crypt B
ok a >>= f = f a
err e >>= f = err e

abbrev pub ◌>>◌ {ℓ} : {B : Type ℓ} → Crypt (Unit {0}) → Crypt B → Crypt B
m >> k = m >>= λ _. k

abbrev pub guard : Bool → CryptoError → Crypt (Unit {0})
guard true e = ok tt
guard false e = err e

abbrev pub or_fail {ℓ} : {A : Type ℓ} → Option A → CryptoError → Crypt A
or_fail none e = err e
or_fail (some a) e = ok a

abbrev pub is_nil : Bytes → Bool
is_nil [] = true
is_nil (b ∷ bs) = false

abbrev pub cipher_prefix : Text
cipher_prefix = codes "gcm:"

module _ (cipher : Cipher) where
  -- deriveKey: no passphrase is no key.
  unfoldable pub derive_key : Text → Bytes → Bytes
  derive_key passphrase salt =
      if is_empty passphrase
      then []
      else or_else (cipher.sum256 passphrase salt) (cipher.scrypt passphrase salt)

  unfoldable pub encrypt_value : Option Bytes → Bytes → Text → Crypt Text
  unfolding encode
  encrypt_value nonce key plain =
      let sealed = do
        guard (cipher.accepts key) bad_key
        n ← or_fail nonce no_nonce
        ok (cipher_prefix ++ encode (n ++ cipher.seal key n plain))
      in if is_nil key then ok plain else sealed

  unfoldable pub decrypt_value : Bytes → Text → Crypt Text
  unfolding decode has_prefix trim_prefix
  decrypt_value key stored =
      let opened = do
        guard (not (is_nil key)) key_not_set
        raw ← or_fail (decode (trim_prefix cipher_prefix stored)) not_base64
        guard (cipher.accepts key) bad_key
        guard (not (ltb (length raw) cipher.nonce_size)) too_short
        or_fail (cipher.unseal key (take cipher.nonce_size raw) (drop cipher.nonce_size raw))
            wrong_key
      in if has_prefix cipher_prefix stored then opened else ok stored
