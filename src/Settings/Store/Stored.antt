-- ===== src/Settings/Store/Stored.antt =====
-- SetMany of internal/settings/settings.go where nothing fails.
use plex_mirror.Base.{◌≡◌, refl, false, Option, List, [], ◌∷◌, All, Text, ℕ}
use mathlib.Core.Path.{subst}
use plex_mirror.Base.Base64.{Bytes}
use plex_mirror.Settings.Crypto.{Cipher}
use plex_mirror.Settings.Crypto.Inverse.{IsAead, IsDraw}
use plex_mirror.Settings.Store.{
  Setting, Faults, ok, put, encode_for_store, write, write_all, set_many,
}
use plex_mirror.Settings.Store.Rows.{IsWellFormed}
use plex_mirror.Settings.Store.Reading.{reads}
use plex_mirror.Settings.Store.Writing.{copy_into, IsStorable, IsAtomic, set_many-IsAtomic}

module _ (cipher : Cipher) (key : Bytes) (nonces : Text → Option Bytes) (faults : Faults)
    (now : ℕ) where
  -- Nothing that a write needs fails.
  pub record CanWrite : Type 0 where
    pub begins : faults.begin ≡ false
    pub commits : faults.commit ≡ false
    pub writes : (k : Text) → faults.statement k ≡ false
    pub seals :
        (k v : Text) → (s : Setting) × (encode_for_store cipher key nonces faults now k v ≡ ok s)

  write_ok :
      CanWrite
      → (k v : Text) (rows : List Setting)
      → (rows' : List Setting) × (write cipher key nonces faults now k v rows ≡ ok rows')
  unfolding write
  write_ok can k v rows = let (s, e) = can.seals k v in (put s rows, rw (e, can.writes k) refl)

  write_all_ok :
      CanWrite
      → (kv : List (Text × Text)) (rows : List Setting)
      → (rows' : List Setting) × (write_all cipher key nonces faults now kv rows ≡ ok rows')
  unfolding write_all
  write_all_ok can [] rows = (rows, refl)
  write_all_ok can ((k, v) ∷ kv) rows =
      let (rows', e) = write_ok can k v rows in
      let (rows'', rest) = write_all_ok can kv rows' in (rows'', rw (e, write_all) rest)

  set_many_ok :
      CanWrite
      → (kv : List (Text × Text)) (rows : List Setting)
      → (rows' : List Setting) × (set_many cipher key nonces faults now kv rows ≡ (rows', ok tt))
  unfolding set_many
  set_many_ok can kv rows =
      let (rows', e) = write_all_ok can kv rows in (rows', rw (can.begins, e, can.commits) refl)

module _ (cipher : Cipher) (aead : IsAead cipher) (key : Bytes) (nonces : Text → Option Bytes)
    (draws : (k : Text) → IsDraw cipher (nonces k)) (faults : Faults) (now : ℕ) where
  -- Where the database takes the statements and the cipher can seal, SetMany succeeds, and GetAll
  -- then reads the old settings with the new entries copied over them, the credentials in plaintext.
  pub set_many_stored :
      (kv : List (Text × Text)) (rows : List Setting)
      → CanWrite cipher key nonces faults now
      → IsWellFormed rows
      → All (IsStorable key) kv
      → (rows' : List Setting) × (set_many cipher key nonces faults now kv rows ≡ (rows', ok tt))
        × IsWellFormed rows'
        × (reads cipher key rows' ≡ copy_into kv (reads cipher key rows))
  set_many_stored kv rows can u h =
      let (rows', e) = set_many_ok cipher key nonces faults now can kv rows in
      let (w, same) =
        subst (IsAtomic cipher aead key nonces draws faults now kv rows) e
          (set_many-IsAtomic cipher aead key nonces draws faults now kv rows u h) in
      (rows', e, w, same)
