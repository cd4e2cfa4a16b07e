-- ===== src/Settings/Crypto/Inverse.antt =====
-- encryptValue and decryptValue of internal/settings/crypto.go: one undoes the other.
use plex_mirror.Base.{
  ◌≡◌, ◌↔◌, ◌⊎◌, refl, ap, inl, inr, Bool, true, false, not, ◌&&◌, Option, none, some, ◌++◌, arith,
  ltb, length, take, drop, take-append, drop-append, length-append, All, All-append, Bool-cases,
  Text, has_prefix, trim_prefix,
}
use plex_mirror.Base.Base64.{Bytes, encode}
use plex_mirror.Base.Base64.Inverse.{IsByte, decode-encode}
use plex_mirror.Settings.Crypto.{
  Cipher, Crypt, ok, err, or_fail, key_not_set, no_nonce, is_nil, cipher_prefix, encrypt_value,
  decrypt_value, ◌>>=◌,
}

-- What the Go library documents of AES-GCM: opening undoes sealing, in bytes.
pub record IsAead (cipher : Cipher) : Type 0 where
  pub opens :
      (key nonce : Bytes) (plain : Text)
      → cipher.accepts key ≡ true
      → length nonce ≡ cipher.nonce_size
      → cipher.unseal key nonce (cipher.seal key nonce plain) ≡ some plain
  pub bytes : (key nonce : Bytes) (plain : Text) → All IsByte (cipher.seal key nonce plain)

-- A random source fills the nonce or fails.
abbrev pub IsNonce : Cipher → Bytes → Type 0
IsNonce cipher nonce = (length nonce ≡ cipher.nonce_size) × All IsByte nonce

abbrev pub IsDraw : Cipher → Option Bytes → Type 0
IsDraw cipher none = Unit
IsDraw cipher (some nonce) = IsNonce cipher nonce

-- A value that reads back: under no key, one that does not look like a ciphertext.
abbrev pub reads_back : Bytes → Text → Bool
reads_back key plain = not (is_nil key && has_prefix cipher_prefix plain)

module _ (cipher : Cipher) where
  pub decrypt_value-plain :
      (key : Bytes) (plain : Text)
      → has_prefix cipher_prefix plain ≡ false
      → decrypt_value cipher key plain ≡ ok plain
  unfolding decrypt_value
  decrypt_value-plain key plain p = rw p refl

  -- Under no key what looks like a ciphertext is refused.
  decrypt_value-unkeyed :
      (key : Bytes) (stored : Text)
      → is_nil key ≡ true
      → has_prefix cipher_prefix stored ≡ true
      → decrypt_value cipher key stored ≡ err key_not_set
  unfolding decrypt_value
  decrypt_value-unkeyed key stored k p = rw (p, k) refl

  encrypt_value-unkeyed :
      (draw : Option Bytes) (key : Bytes) (plain : Text)
      → is_nil key ≡ true
      → encrypt_value cipher draw key plain ≡ ok plain
  unfolding encrypt_value
  encrypt_value-unkeyed draw key plain k = rw k refl

module _ (cipher : Cipher) (aead : IsAead cipher) where
  decrypt_value-sealed :
      (key nonce : Bytes) (plain : Text)
      → IsNonce cipher nonce
      → is_nil key ≡ false
      → cipher.accepts key ≡ true
      → decrypt_value cipher key (cipher_prefix ++ encode (nonce ++ cipher.seal key nonce plain))
        ≡ ok plain
  unfolding decrypt_value has_prefix trim_prefix
  decrypt_value-sealed key nonce plain (size, is_bytes) k a =
      rw
        (
          k,
          decode-encode (nonce ++ sealed)
              (All-append IsByte nonce sealed is_bytes (aead.bytes key nonce plain)),
          a,
        )
        (rw (long_enough, nonce_part, sealed_part, aead.opens key nonce plain a size) refl)
    where
      sealed : Bytes
      sealed = cipher.seal key nonce plain

      nonce_part : take cipher.nonce_size (nonce ++ sealed) ≡ nonce
      nonce_part = rw (← size) (take-append nonce sealed)

      sealed_part : drop cipher.nonce_size (nonce ++ sealed) ≡ sealed
      sealed_part = rw (← size) (drop-append nonce sealed)

      long_enough : ltb (length (nonce ++ sealed)) cipher.nonce_size ≡ false
      long_enough = ground (arith, length-append nonce sealed)

  has_prefix-sealed : (s : Text) → has_prefix cipher_prefix (cipher_prefix ++ s) ≡ true
  unfolding has_prefix
  has_prefix-sealed s = refl

  -- What encryptValue returns, on every branch.
  abbrev pub IsEncrypted : Bytes → Text → Crypt Text → Type 0
  IsEncrypted key plain (ok stored) =
      (decrypt_value cipher key stored ≡ ok plain)
      × ((is_nil key ≡ true) × (stored ≡ plain)
          ⊎ (is_nil key ≡ false) × (has_prefix cipher_prefix stored ≡ true))
  IsEncrypted key plain (err e) = is_nil key ≡ false

  pub encrypt_value-IsEncrypted :
      (draw : Option Bytes) (key : Bytes) (plain : Text)
      → IsDraw cipher draw
      → reads_back key plain ≡ true
      → IsEncrypted key plain (encrypt_value cipher draw key plain)
  unfolding encrypt_value
  encrypt_value-IsEncrypted draw key plain d r = elim (Bool-cases (is_nil key)) [
    | inl k ↦ rw k (decrypt_value-plain cipher key plain (unprefixed k), inl (k, refl))
    | inr k ↦ elim (Bool-cases (cipher.accepts key)) [
      | inr a ↦ rw (k, a) k
      | inl a ↦ rw (k, a) (drawn draw d k a)
    ]
  ]
    where
      unprefixed : is_nil key ≡ true → has_prefix cipher_prefix plain ≡ false
      unprefixed k = ground (arith, k, r)

      drawn :
          (draw : Option Bytes)
          → IsDraw cipher draw
          → is_nil key ≡ false
          → cipher.accepts key ≡ true
          → IsEncrypted key plain (
              or_fail draw no_nonce >>= λ n.
              ok (cipher_prefix ++ encode (n ++ cipher.seal key n plain)))
      drawn none d k a = k
      drawn (some nonce) d k a = (
        decrypt_value-sealed key nonce plain d k a,
        inr (k, has_prefix-sealed (encode (nonce ++ cipher.seal key nonce plain))),
      )

  encrypt_value_ok :
      (draw : Option Bytes) (key : Bytes) (plain stored : Text)
      → IsDraw cipher draw
      → reads_back key plain ≡ true
      → encrypt_value cipher draw key plain ≡ ok stored
      → IsEncrypted key plain (ok stored)
  encrypt_value_ok draw key plain stored d r e =
      rw e at (encrypt_value-IsEncrypted draw key plain d r)

  -- What encryptValue stored reads back as the value that went in, exactly where there is a key or
  -- the value does not begin with "gcm:".
  pub decrypt_value-encrypt_value :
      (draw : Option Bytes) (key : Bytes) (plain stored : Text)
      → IsDraw cipher draw
      → encrypt_value cipher draw key plain ≡ ok stored
      → (decrypt_value cipher key stored ≡ ok plain) ↔ (reads_back key plain ≡ true)
  decrypt_value-encrypt_value draw key plain stored d e =
      (only, λ r. (encrypt_value_ok draw key plain stored d r e).0)
    where
      refused :
          (is_nil key ≡ true) × (has_prefix cipher_prefix plain ≡ true)
          → decrypt_value cipher key stored ≡ ok plain
          → reads_back key plain ≡ true
      refused (k, p) q =
          let same : stored ≡ plain = cc (encrypt_value-unkeyed cipher draw key plain k) in
          cc (decrypt_value-unkeyed cipher key plain k p, ap (decrypt_value cipher key) same)

      only : decrypt_value cipher key stored ≡ ok plain → reads_back key plain ≡ true
      only q = elim (Bool-cases (is_nil key)) [
        | inr k ↦ rw k refl
        | inl k ↦ elim (Bool-cases (has_prefix cipher_prefix plain)) [
          | inl p ↦ refused (k, p) q
          | inr p ↦ rw (k, p) refl
        ]
      ]
