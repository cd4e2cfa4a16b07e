-- ===== src/Tests/Sealing.antt =====
-- Runs of internal/settings/crypto.go and internal/settings/settings.go under a toy cipher.
use plex_mirror.Base.{
  ℕ, zero, suc, ◌+◌, ◌≡◌, ◌↔◌, refl, inl, inr, Bool, true, false, Option, none, some, List, [], ◌∷◌,
  ◌++◌, arith, All, Text, codes, has_prefix, text_eq, Bool-cases,
}
use plex_mirror.Base.Base64.{Bytes}
use plex_mirror.Base.Base64.Inverse.{IsByte}
use plex_mirror.Settings.Crypto.{Cipher, encrypt_value, decrypt_value}
use plex_mirror.Settings.Crypto
use plex_mirror.Settings.Crypto.Inverse.{IsAead, IsDraw, reads_back, decrypt_value-encrypt_value}
use plex_mirror.Settings.Store.{
  Setting, Faults, Attempt, lookup, set_many, is_secret_key, encode_for_store,
  encrypt_plaintext_secrets, read_rows, exposed,
}
use plex_mirror.Settings.Store
use plex_mirror.Settings.Store.Rows.{IsWellFormed, IsFlagged}
use plex_mirror.Settings.Store.Reading.{reads}
use plex_mirror.Settings.Store.Writing.{copy_into, IsStorable, IsAtomic, set_many-IsAtomic}
use plex_mirror.Settings.Store.Stored.{CanWrite, set_many_stored}
use plex_mirror.Settings.Store.Sealing.Sealed.{IsSealed, encrypt_plaintext_secrets-IsSealed}
use plex_mirror.Settings.Store.Salt.{new_store, new_store-again}

-- A code point is sealed as that many ones and a zero.
unfoldable pub ones : ℕ → Bytes → Bytes
ones zero rest = 0 ∷ rest
ones (suc n) rest = 1 ∷ ones n rest

unfoldable pub unary : Text → Bytes
unfolding ones
unary [] = []
unary (c ∷ cs) = ones c (unary cs)

unfoldable pub counted : ℕ → Bytes → Text
counted n [] = []
counted n (zero ∷ bs) = n ∷ counted 0 bs
counted n (suc b ∷ bs) = counted (suc n) bs

counted-ones : (m n : ℕ) (rest : Bytes) → counted m (ones n rest) ≡ (m + n) ∷ counted 0 rest
unfolding counted ones
counted-ones m zero rest = rw (the m) refl
  where
    the : (m : ℕ) → m + 0 ≡ m
    the m = omega arith
counted-ones m (suc n) rest = rw (counted-ones (suc m) n rest, moved m n) refl
  where
    moved : (m n : ℕ) → suc m + n ≡ m + suc n
    moved m n = omega arith

counted-unary : (t : Text) → counted 0 (unary t) ≡ t
unfolding counted unary
counted-unary [] = refl
counted-unary (c ∷ cs) = rw (counted-ones 0 c (unary cs), counted-unary cs, none_before c) refl
  where
    none_before : (c : ℕ) → 0 + c ≡ c
    none_before c = omega arith

ones-bytes : (n : ℕ) (rest : Bytes) → All IsByte rest → All IsByte (ones n rest)
unfolding ones
ones-bytes zero rest h = (omega arith, h)
ones-bytes (suc n) rest h = (omega arith, ones-bytes n rest h)

unary-bytes : (t : Text) → All IsByte (unary t)
unfolding unary
unary-bytes [] = tt
unary-bytes (c ∷ cs) = ones-bytes c (unary cs) (unary-bytes cs)

abbrev pub toy : Cipher
toy = record {
  accepts = λ key. true;
  nonce_size = 2;
  seal = λ key nonce plain. unary plain;
  unseal = λ key nonce bytes. some (counted 0 bytes);
  scrypt = λ passphrase salt. some (unary passphrase ++ salt);
  sum256 = λ passphrase salt. [];
}

pub toy-IsAead : IsAead toy
toy-IsAead = record {
  opens = λ key nonce plain a n. rw (counted-unary plain) refl;
  bytes = λ key nonce plain. unary-bytes plain;
}

abbrev pub key : Bytes
key = 9 ∷ 9 ∷ 9 ∷ []

abbrev pub nonces : Text → Option Bytes
nonces k = some (7 ∷ 8 ∷ [])

pub nonces-IsDraw : (k : Text) → IsDraw toy (nonces k)
nonces-IsDraw k = (refl, (omega arith, (omega arith, tt)))

abbrev pub no_faults : Faults
no_faults = record { query = false; begin = false; statement = λ k. false; commit = false }

abbrev row : Text → Text → Bool → Setting
row k v secret = record { key = k; value = v; is_secret = secret; updated_at = 1 }

-- A credential in plaintext, and a size.
abbrev pub rows : List Setting
rows =
    row (codes "plex.token") (codes "t") true
    ∷ row (codes "storage.hard_cap") (codes " 5g") false
    ∷ []

pub rows-IsWellFormed : IsWellFormed rows
unfolding lookup text_eq
rows-IsWellFormed = ((refl, (refl, tt)), (λ h. refl, (λ h. cc, tt)))

abbrev entries : List (Text × Text)
entries = (codes "jellyfin.token", codes "u") ∷ (codes "storage.hard_cap", codes "7") ∷ []

entries-IsStorable : All (IsStorable key) entries
unfolding has_prefix text_eq
entries-IsStorable = ((refl, λ h. refl), ((refl, λ h. refl), tt))

sealed_one : encrypt_value toy (nonces []) key (1 ∷ []) ≡ Crypto.ok (codes "gcm:BwgBAA==")
unfolding encrypt_value unary
sealed_one = refl

decrypt_value-encrypt_value_example :
    (decrypt_value toy key (codes "gcm:BwgBAA==") ≡ Crypto.ok (1 ∷ []))
    ↔ (reads_back key (1 ∷ []) ≡ true)
decrypt_value-encrypt_value_example =
    decrypt_value-encrypt_value toy toy-IsAead (nonces []) key (1 ∷ []) (codes "gcm:BwgBAA==")
      (nonces-IsDraw []) sealed_one

-- The commit fails.
abbrev at_commit : Faults
at_commit = record { query = false; begin = false; statement = λ k. false; commit = true }

not_committed :
    set_many toy key nonces at_commit 3 entries rows ≡ (rows, Store.err Store.commit_failed)
unfolding set_many text_eq unary
not_committed = refl

set_many-IsAtomic_example :
    IsAtomic toy toy-IsAead key nonces nonces-IsDraw at_commit 3 entries rows
      (set_many toy key nonces at_commit 3 entries rows)
set_many-IsAtomic_example =
    set_many-IsAtomic toy toy-IsAead key nonces nonces-IsDraw at_commit 3 entries rows
      rows-IsWellFormed entries-IsStorable

can_write : CanWrite toy key nonces no_faults 3
unfolding encode_for_store encrypt_value
can_write = record {
  begins = refl;
  commits = refl;
  writes = λ k. refl;
  seals = λ k v. elim (Bool-cases (is_secret_key k)) [
    | inl e ↦ rw e (_, refl)
    | inr e ↦ rw e (_, refl)
  ];
}

set_many_stored_example :
    (rows' : List Setting) × (set_many toy key nonces no_faults 3 entries rows
      ≡ (rows', Store.ok tt))
    × IsWellFormed rows'
    × (reads toy key rows' ≡ copy_into entries (reads toy key rows))
set_many_stored_example =
    set_many_stored toy toy-IsAead key nonces nonces-IsDraw no_faults 3 entries rows can_write
      rows-IsWellFormed entries-IsStorable

rows-IsFlagged : All IsFlagged rows
unfolding text_eq
rows-IsFlagged = (λ h. refl, (λ h. cc, tt))

encrypt_plaintext_secrets-IsSealed_example :
    IsSealed toy key nonces no_faults 3 rows
      (encrypt_plaintext_secrets toy key nonces no_faults 3 rows)
encrypt_plaintext_secrets-IsSealed_example =
    encrypt_plaintext_secrets-IsSealed toy toy-IsAead key nonces nonces-IsDraw no_faults 3 rows refl
      rows-IsWellFormed rows-IsFlagged

new_store-again_example :
    new_store toy no_faults 9 none
      (codes "p")
      (new_store toy no_faults 3 (some (5 ∷ 6 ∷ [])) (codes "p") rows).1
    ≡ new_store toy no_faults 3 (some (5 ∷ 6 ∷ [])) (codes "p") rows
unfolding lookup text_eq
new_store-again_example =
    new_store-again no_faults refl toy (codes "p") 3 9 (5 ∷ 6 ∷ []) none rows refl
      (omega arith, (omega arith, tt)) refl (inl refl)
