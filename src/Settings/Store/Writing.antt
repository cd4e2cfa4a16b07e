-- ===== src/Settings/Store/Writing.antt =====
-- Set and SetMany of internal/settings/settings.go: what GetAll reads after them.
use plex_mirror.Base.{
  ℕ, ◌≡◌, refl, ap, ◌∙◌, arith, ◌⊎◌, inl, inr, true, false, Option, has_prefix, List, [], ◌∷◌, All,
  Text, Bool-cases,
}
use mathlib.Core.Path.{fun_ext}
use mathlib.Core.Bool.{false≢true}
use plex_mirror.Base.Base64.{Bytes}
use plex_mirror.Settings.Crypto
use plex_mirror.Settings.Crypto.{Cipher, Crypt, is_nil, cipher_prefix, encrypt_value, decrypt_value}
use plex_mirror.Settings.Crypto.Inverse.{
  IsAead, IsDraw, reads_back, IsEncrypted, encrypt_value-IsEncrypted,
}
use plex_mirror.Settings.Store.{
  Setting, Faults, Attempt, ok, err, Map, assign, is_secret_key, is_reserved, visible, is_exposed,
  encode_for_store, encoded, written, write, write_all, set_many, kept, committed,
}
use plex_mirror.Settings.Store.Rows.{IsMarked, IsWellFormed, put-IsWellFormed}
use plex_mirror.Settings.Store.Reading.{reads, reads-put}

-- maps.Copy(m, kv), and the order in which `range kv` visits the entries
abbrev pub copy_into : List (Text × Text) → Map → Map
copy_into [] m = m
copy_into ((k, v) ∷ kv) m = copy_into kv (assign m k v)

-- A value that reads back from the row of its key.
abbrev pub IsStorable : Bytes → Text × Text → Type 0
IsStorable key (k, v) = (is_reserved k ≡ false) × (is_secret_key k ≡ true → reads_back key v ≡ true)

module _ (cipher : Cipher) (aead : IsAead cipher) (key : Bytes) (nonces : Text → Option Bytes)
    (draws : (k : Text) → IsDraw cipher (nonces k)) (faults : Faults) (now : ℕ) where
  -- The row that stands for a value.
  abbrev pub IsRowOf : Text → Text → Attempt Setting → Type 0
  IsRowOf k v (err e) = Unit
  IsRowOf k v (ok s) =
      (s.key ≡ k)
      × (visible cipher key s ≡ v)
      × (is_nil key ≡ false → is_exposed s ≡ false)
      × IsMarked s

  pub encode_for_store-IsRowOf :
      (k v : Text)
      → (is_secret_key k ≡ true → reads_back key v ≡ true)
      → IsRowOf k v (encode_for_store cipher key nonces faults now k v)
  unfolding encode_for_store visible has_prefix
  encode_for_store-IsRowOf k v h = elim (Bool-cases (is_secret_key k)) [
    | inr e ↦ rw e (refl, rw e refl, λ k. refl, λ q. absurd (false≢true q))
    | inl e ↦ rw e (
        sealed e (encrypt_value cipher (nonces k) key v)
          (encrypt_value-IsEncrypted cipher aead (nonces k) key v (draws k) (h e)))
  ]
    where
      hidden :
          {stored : Text}
          → ((is_nil key ≡ true) × (stored ≡ v))
            ⊎ ((is_nil key ≡ false) × (has_prefix cipher_prefix stored ≡ true))
          → is_nil key ≡ false
          → is_exposed (record { key = k; value = stored; is_secret = true; updated_at = now })
            ≡ false
      hidden (inl (n, same)) m = cc
      hidden (inr (n, p)) m = ground (arith, p)

      sealed :
          is_secret_key k ≡ true
          → (c : Crypt Text) → IsEncrypted cipher aead key v c
          → IsRowOf k v (encoded cipher key nonces faults now k c)
      sealed e (Crypto.ok stored) w = (refl, rw w.0 refl, hidden w.1, λ q. e)
      sealed e (Crypto.err x) w = tt

  -- What a write leaves: the entry assigned, every other one as it was.
  abbrev pub IsWritten : List (Text × Text) → List Setting → Attempt (List Setting) → Type 0
  IsWritten kv rows (err e) = Unit
  IsWritten kv rows (ok rows') =
      IsWellFormed rows' × (reads cipher key rows' ≡ copy_into kv (reads cipher key rows))

  written-IsWritten :
      (k v : Text) (rows : List Setting) (a : Attempt Setting)
      → IsWellFormed rows
      → is_reserved k ≡ false
      → IsRowOf k v a
      → IsWritten ((k, v) ∷ []) rows (written cipher key nonces faults now k a rows)
  written-IsWritten k v rows (err e) u n w = tt
  written-IsWritten k v rows (ok s) u n (same, shows, hidden, marked) =
      elim (Bool-cases (faults.statement k)) [
        | inl f ↦ rw f tt
        | inr f ↦ rw f (
          put-IsWellFormed s rows marked u,
          fun_ext
              (λ (x : Text). reads-put cipher key rows s v x u.0 (rw same n) shows ∙ rw same refl),
        )
      ]

  pub write-IsWritten :
      (k v : Text) (rows : List Setting)
      → IsWellFormed rows
      → IsStorable key (k, v)
      → IsWritten ((k, v) ∷ []) rows (write cipher key nonces faults now k v rows)
  unfolding write
  write-IsWritten k v rows u (n, h) =
      written-IsWritten k v rows (encode_for_store cipher key nonces faults now k v) u n
        (encode_for_store-IsRowOf k v h)

  write_all-IsWritten :
      (kv : List (Text × Text)) (rows : List Setting)
      → IsWellFormed rows
      → All (IsStorable key) kv
      → IsWritten kv rows (write_all cipher key nonces faults now kv rows)
  unfolding write_all
  write_all-IsWritten [] rows u h = (u, refl)
  write_all-IsWritten ((k, v) ∷ kv) rows u h =
      step (write cipher key nonces faults now k v rows) (write-IsWritten k v rows u h.0)
        (λ rows' u'. write_all-IsWritten kv rows' u' h.1)
    where
      chain :
          (rows' : List Setting)
          → IsWritten ((k, v) ∷ []) rows (ok rows')
          → (a : Attempt (List Setting)) → IsWritten kv rows' a
          → IsWritten ((k, v) ∷ kv) rows a
      chain rows' w (err e) z = tt
      chain rows' w (ok rows'') z = (z.0, z.1 ∙ ap (copy_into kv) w.1)

      step :
          (a : Attempt (List Setting))
          → IsWritten ((k, v) ∷ []) rows a
          → ((rows' : List Setting)
              → IsWellFormed rows'
              → IsWritten kv rows' (write_all cipher key nonces faults now kv rows'))
          → IsWritten ((k, v) ∷ kv) rows (elim a [
            | err e ↦ err e
            | ok rows' ↦ write_all cipher key nonces faults now kv rows'
          ])
      step (err e) w rest = tt
      step (ok rows') w rest =
          chain rows' w (write_all cipher key nonces faults now kv rows') (rest rows' w.0)

  -- Either every entry is written or the table is as it was.
  abbrev pub IsAtomic :
      List (Text × Text) → List Setting → List Setting × Attempt (Unit {0}) → Type 0
  IsAtomic kv rows (rows', err e) = rows' ≡ rows
  IsAtomic kv rows (rows', ok done) =
      IsWellFormed rows' × (reads cipher key rows' ≡ copy_into kv (reads cipher key rows))

  -- SetMany writes every entry of the map, in whatever order it visits them, or leaves the table as
  -- it was: after a success GetAll reads the old settings with the new entries copied over them, the
  -- encrypted ones too, and after a failure of the transaction, of the encryption or of any statement
  -- no row has changed.
  pub set_many-IsAtomic :
      (kv : List (Text × Text)) (rows : List Setting)
      → IsWellFormed rows
      → All (IsStorable key) kv
      → IsAtomic kv rows (set_many cipher key nonces faults now kv rows)
  unfolding set_many
  set_many-IsAtomic kv rows u h = elim (Bool-cases faults.begin) [
    | inl b ↦ rw b refl
    | inr b ↦
        rw b (
          finish (write_all cipher key nonces faults now kv rows) (write_all-IsWritten kv rows u h))
  ]
    where
      finish :
          (a : Attempt (List Setting))
          → IsWritten kv rows a
          → IsAtomic kv rows
              (kept cipher key nonces faults now rows (committed cipher key nonces faults now a))
      finish (err e) w = refl
      finish (ok rows') w = elim (Bool-cases faults.commit) [ inl c ↦ rw c refl | inr c ↦ rw c w ]
