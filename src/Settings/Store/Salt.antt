-- ===== src/Settings/Store/Salt.antt =====
-- NewStore, loadOrCreateSalt and readSalt of internal/settings/settings.go. `random` is the salt that
-- the random source gives, none where it fails.
use plex_mirror.Base.{
  ℕ, ◌≡◌, refl, ◌⊎◌, inl, inr, false, Option, none, some, List, [], ◌∷◌, if◌then◌else◌, or_else,
  Text, codes, text_eq, text_eq_refl, All, Bool-cases, is_empty,
}
use plex_mirror.Base.Base64.{Bytes, encode, decode}
use plex_mirror.Base.Base64.Inverse.{IsByte, decode-encode}
use plex_mirror.Settings.Crypto.{Cipher, is_nil, derive_key}
use plex_mirror.Settings.Store.{Setting, Faults, salt_key, lookup}

abbrev pub filled : Option Bytes → Option Bytes
filled none = none
filled (some raw) = if is_nil raw then none else some raw

abbrev pub salt_of : Option Setting → Option Bytes
salt_of none = none
salt_of (some r) = filled (decode r.value)

unfoldable pub read_salt : Faults → List Setting → Option Bytes
unfolding lookup decode
read_salt faults rows = if faults.query then none else salt_of (lookup salt_key rows)

-- INSERT ... ON CONFLICT(key) DO NOTHING
unfoldable pub insert_new : Setting → List Setting → List Setting
insert_new s [] = s ∷ []
insert_new s (r ∷ rs) =
    let rest = insert_new s rs in if text_eq r.key s.key then r ∷ rs else r ∷ rest

-- []byte("plex-mirror-fixed")[:saltLen]
abbrev fixed_salt : Bytes
fixed_salt = codes "plex-mirror-fixe"

abbrev salt_row : ℕ → Bytes → Setting
salt_row now salt = record {
  key = salt_key;
  value = encode salt;
  is_secret = false;
  updated_at = now;
}

-- The salt, and the rows after.
unfoldable pub load_or_create_salt : Faults → ℕ → Option Bytes → List Setting → Bytes × List Setting
unfolding read_salt insert_new encode
load_or_create_salt faults now random rows = elim (read_salt faults rows) [
  | some salt ↦ (salt, rows)
  | none ↦ elim random [
    | none ↦ (fixed_salt, rows)
    | some salt ↦
        let rows' = insert_new (salt_row now salt) rows in
        if faults.statement salt_key
        then (salt, rows)
        else (or_else salt (read_salt faults rows'), rows')
  ]
]

-- NewStore: the key, and the rows after.
unfoldable pub new_store :
    Cipher → Faults → ℕ → Option Bytes → Text → List Setting → Bytes × List Setting
unfolding load_or_create_salt derive_key
new_store cipher faults now random passphrase rows =
    let (salt, rows') = load_or_create_salt faults now random rows in
    if is_empty passphrase then ([], rows) else (derive_key cipher passphrase salt, rows')

lookup-insert_new :
    (s : Setting) (rows : List Setting)
    → lookup s.key rows ≡ none
    → lookup s.key (insert_new s rows) ≡ some s
unfolding lookup insert_new
lookup-insert_new s [] e = rw (text_eq_refl s.key) refl
lookup-insert_new s (r ∷ rs) e = elim (Bool-cases (text_eq r.key s.key)) [
  | inl f ↦ absurd (missing (rw f at e))
  | inr f ↦ rw (f, f) (lookup-insert_new s rs (rw f at e))
]
  where
    missing : Path (Option Setting) (some r) none → ⊥
    missing e = cc

module _ (faults : Faults) (reads : faults.query ≡ false) where
  read_salt-insert_new :
      (now : ℕ) (salt : Bytes) (rows : List Setting)
      → All IsByte salt
      → is_nil salt ≡ false
      → lookup salt_key rows ≡ none
      → read_salt faults (insert_new (salt_row now salt) rows) ≡ some salt
  unfolding read_salt
  read_salt-insert_new now salt rows bytes filled missing =
      rw
        (
          reads,
          lookup-insert_new (salt_row now salt) rows missing,
          decode-encode salt bytes,
          filled,
        )
        refl

  load_or_create_salt-found :
      (now : ℕ) (random : Option Bytes) (salt : Bytes) (rows : List Setting)
      → read_salt faults rows ≡ some salt
      → load_or_create_salt faults now random rows ≡ (salt, rows)
  unfolding load_or_create_salt
  load_or_create_salt-found now random salt rows e = rw (e, load_or_create_salt) refl

  load_or_create_salt-fresh :
      (now : ℕ) (salt : Bytes) (rows : List Setting)
      → faults.statement salt_key ≡ false
      → All IsByte salt
      → is_nil salt ≡ false
      → lookup salt_key rows ≡ none
      → load_or_create_salt faults now (some salt) rows
        ≡ (salt, insert_new (salt_row now salt) rows)
  unfolding load_or_create_salt read_salt
  load_or_create_salt-fresh now salt rows writes bytes long missing =
      let unread : read_salt faults rows ≡ none = rw (reads, missing) refl in
      rw (unread, load_or_create_salt)
        (rw (writes, read_salt-insert_new now salt rows bytes long missing) refl)

  -- The salt that a start reads or stores is the one that the next start reads.
  load_or_create_salt-again :
      (now now' : ℕ) (salt : Bytes) (random' : Option Bytes) (rows : List Setting)
      → faults.statement salt_key ≡ false
      → All IsByte salt
      → is_nil salt ≡ false
      → (lookup salt_key rows ≡ none) ⊎ ((s : Bytes) × (read_salt faults rows ≡ some s))
      → load_or_create_salt faults now' random' (load_or_create_salt faults now (some salt) rows).1
        ≡ load_or_create_salt faults now (some salt) rows
  load_or_create_salt-again now now' salt random' rows writes bytes long (inl missing) =
      rw (load_or_create_salt-fresh now salt rows writes bytes long missing) (
        load_or_create_salt-found now' random' salt (insert_new (salt_row now salt) rows)
          (read_salt-insert_new now salt rows bytes long missing))
  load_or_create_salt-again now now' salt random' rows writes bytes long (inr (s, found)) =
      rw (load_or_create_salt-found now (some salt) s rows found)
        (load_or_create_salt-found now' random' s rows found)

  -- NewStore of a restart derives the key that the first start derived, whatever the random source
  -- then gives, and stores nothing new: where the salt could be stored at the first start, or was
  -- readable before.
  pub new_store-again :
      (cipher : Cipher) (passphrase : Text) (now now' : ℕ) (salt : Bytes) (random' : Option Bytes)
      (rows : List Setting)
      → faults.statement salt_key ≡ false
      → All IsByte salt
      → is_nil salt ≡ false
      → (lookup salt_key rows ≡ none) ⊎ ((s : Bytes) × (read_salt faults rows ≡ some s))
      → new_store cipher faults now' random' passphrase
          (new_store cipher faults now (some salt) passphrase rows).1
        ≡ new_store cipher faults now (some salt) passphrase rows
  unfolding new_store
  new_store-again cipher passphrase now now' salt random' rows writes bytes long h =
      elim (Bool-cases (is_empty passphrase)) [
        | inl e ↦ rw e refl
        | inr e ↦
            rw e
              (rw (load_or_create_salt-again now now' salt random' rows writes bytes long h) refl)
      ]
