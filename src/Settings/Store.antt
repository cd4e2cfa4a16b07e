-- ===== src/Settings/Store.antt =====
-- Store of internal/settings/settings.go: the `settings` table, one row for each key, and what reads
-- and writes it. `nonces` is the nonce that is drawn for a key's value, and `faults` says which
-- statements the database refuses.
pub mod Rows
pub mod Reading
pub mod Writing
pub mod Stored
pub mod Sealing
pub mod Salt
use plex_mirror.Base.{
  ℕ, Bool, true, false, not, ◌&&◌, ◌||◌, Option, none, some, List, [], ◌∷◌, if◌then◌else◌, Text,
  codes, text_eq, is_empty, has_prefix,
}
use plex_mirror.Base.Base64.{Bytes}
use plex_mirror.Settings.Crypto
use plex_mirror.Settings.Crypto.{
  Cipher, CryptoError, Crypt, is_nil, cipher_prefix, encrypt_value, decrypt_value,
}

pub record Setting : Type 0 where
  pub key : Text
  pub value : Text
  pub is_secret : Bool
  pub updated_at : ℕ

pub record Faults : Type 0 where
  pub query : Bool
  pub begin : Bool
  pub statement : Text → Bool
  pub commit : Bool

pub data StoreError : Type 0 where
  query_failed begin_failed commit_failed : StoreError
  encrypt_failed : Text → CryptoError → StoreError
  statement_failed : Text → StoreError

pub data Attempt {ℓ} (A : Type ℓ) : Type ℓ where
  ok : A → Attempt A
  err : StoreError → Attempt A

-- A Go map from strings to strings, and m[k] = v.
abbrev pub Map : Type 0
Map = Text → Option Text

abbrev pub no_entries : Map
no_entries n = none

abbrev pub assign : Map → Text → Text → Map
assign m k v n = if text_eq k n then some v else m n

-- secretKeys
abbrev pub is_secret_key : Text → Bool
is_secret_key k = text_eq k (codes "plex.token") || text_eq k (codes "jellyfin.token")

abbrev pub is_reserved : Text → Bool
is_reserved k = has_prefix (codes "$") k

abbrev pub salt_key : Text
salt_key = codes "$kdf.salt"

-- SELECT ... WHERE key = ?
unfoldable pub lookup : Text → List Setting → Option Setting
lookup k [] = none
lookup k (r ∷ rs) = let rest = lookup k rs in if text_eq r.key k then some r else rest

-- INSERT ... ON CONFLICT(key) DO UPDATE, of all columns
unfoldable pub put : Setting → List Setting → List Setting
put s [] = s ∷ []
put s (r ∷ rs) = let rest = put s rs in if text_eq r.key s.key then s ∷ rs else r ∷ rest

-- DELETE FROM settings WHERE key = ?
unfoldable pub delete : Text → List Setting → List Setting
delete k [] = []
delete k (r ∷ rs) = let rest = delete k rs in if text_eq r.key k then rest else r ∷ rest

abbrev pub or_blank : Crypt Text → Text
or_blank (Crypto.ok plain) = plain
or_blank (Crypto.err e) = []

pub data SecretStatus : Type 0 where
  set unset unreadable : SecretStatus

abbrev pub secret_status : Crypt Text → SecretStatus
secret_status (Crypto.err e) = unreadable
secret_status (Crypto.ok plain) = if is_empty plain then unset else set

-- A credential that stands in plaintext.
abbrev pub is_exposed : Setting → Bool
is_exposed r = r.is_secret && not (is_empty r.value) && not (has_prefix cipher_prefix r.value)

-- What the scan of EncryptPlaintextSecrets collects.
unfoldable pub exposed : List Setting → List (Text × Text)
unfolding has_prefix
exposed [] = []
exposed (r ∷ rs) = let rest = exposed rs in if is_exposed r then (r.key, r.value) ∷ rest else rest

module _ (cipher : Cipher) (key : Bytes) where
  -- What GetAll makes of a row.
  unfoldable pub visible : Setting → Text
  unfolding decrypt_value
  visible r =
      if r.is_secret || is_secret_key r.key
      then or_blank (decrypt_value cipher key r.value)
      else r.value

  -- One round of GetAll's loop.
  unfoldable pub add_row : Map → Setting → Map
  unfolding visible has_prefix
  add_row out r = if is_reserved r.key then out else assign out r.key (visible r)

  unfoldable pub read_rows : Map → List Setting → Map
  unfolding add_row
  read_rows out [] = out
  read_rows out (r ∷ rs) = read_rows (add_row out r) rs

  unfoldable pub get_all : Faults → List Setting → Attempt Map
  unfolding read_rows
  get_all faults rows = if faults.query then err query_failed else ok (read_rows no_entries rows)

  -- SecretState: a key with no row is absent.
  unfoldable pub read_secrets :
      (Text → Option SecretStatus) → List Setting → Text → Option SecretStatus
  unfolding decrypt_value
  read_secrets out [] = out
  read_secrets out (r ∷ rs) =
      read_secrets
        (if r.is_secret
          then (λ n.
              if text_eq r.key n
              then some (secret_status (decrypt_value cipher key r.value))
              else out n)
          else out)
        rs

  unfoldable pub secret_state : Faults → List Setting → Attempt (Text → Option SecretStatus)
  unfolding read_secrets
  secret_state faults rows =
      if faults.query then err query_failed else ok (read_secrets (λ n. none) rows)

  module _ (nonces : Text → Option Bytes) (faults : Faults) (now : ℕ) where
    abbrev pub encoded : Text → Crypt Text → Attempt Setting
    encoded k (Crypto.ok stored) =
        ok (record { key = k; value = stored; is_secret = true; updated_at = now })
    encoded k (Crypto.err e) = err (encrypt_failed k e)

    -- encodeForStore: the row that is to be written
    unfoldable pub encode_for_store : Text → Text → Attempt Setting
    unfolding encrypt_value
    encode_for_store k v =
        if is_secret_key k
        then encoded k (encrypt_value cipher (nonces k) key v)
        else ok (record { key = k; value = v; is_secret = false; updated_at = now })

    abbrev pub written : Text → Attempt Setting → List Setting → Attempt (List Setting)
    written k (err e) rows = err e
    written k (ok s) rows = if faults.statement k then err (statement_failed k) else ok (put s rows)

    -- One statement of Set, and of the loop of SetMany.
    unfoldable pub write : Text → Text → List Setting → Attempt (List Setting)
    unfolding encode_for_store put
    write k v rows = written k (encode_for_store k v) rows

    abbrev pub kept : List Setting → Attempt (List Setting) → List Setting × Attempt (Unit {0})
    kept rows (err e) = (rows, err e)
    kept rows (ok rows') = (rows', ok tt)

    unfoldable pub set_one : Text → Text → List Setting → List Setting × Attempt (Unit {0})
    unfolding write
    set_one k v rows = kept rows (write k v rows)

    unfoldable pub write_all : List (Text × Text) → List Setting → Attempt (List Setting)
    unfolding write
    write_all [] rows = ok rows
    write_all ((k, v) ∷ kv) rows = elim (write k v rows) [
      | err e ↦ err e
      | ok rows' ↦ write_all kv rows'
    ]

    abbrev pub committed : Attempt (List Setting) → Attempt (List Setting)
    committed (err e) = err e
    committed (ok rows) = if faults.commit then err commit_failed else ok rows

    -- SetMany: what a failure leaves is what was there, since the transaction is rolled back.
    unfoldable pub set_many : List (Text × Text) → List Setting → List Setting × Attempt (Unit {0})
    unfolding write_all
    set_many kv rows =
        if faults.begin then (rows, err begin_failed) else kept rows (committed (write_all kv rows))

    -- The loop that rewrites, which ends at the first failure and keeps what it has written.
    unfoldable pub rewrite : List (Text × Text) → List Setting → List Setting × Attempt (Unit {0})
    unfolding set_one
    rewrite [] rows = (rows, ok tt)
    rewrite ((k, v) ∷ kv) rows =
        let (rows', result) = set_one k v rows in
        elim result [ err e ↦ (rows', err e) | ok done ↦ rewrite kv rows' ]

    unfoldable pub encrypt_plaintext_secrets : List Setting → List Setting × Attempt (Unit {0})
    unfolding exposed rewrite
    encrypt_plaintext_secrets rows =
        if is_nil key
        then (rows, ok tt)
        else if faults.query
        then (rows, err query_failed)
        else rewrite (exposed rows) rows
