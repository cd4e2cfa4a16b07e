-- ===== src/Settings/Store/Sealing.antt =====
-- EncryptPlaintextSecrets of internal/settings/settings.go.
pub mod Exposed
pub mod Sealed
use plex_mirror.Base.{
  ℕ, ◌≡◌, refl, sym, ap, ◌∙◌, ◌⊎◌, inl, inr, arith, Bool, true, false, not, ◌&&◌, ◌||◌, Option,
  none, some, List, [], ◌∷◌, All, All-map, Text, text_eq, text_eq_iff, text_eq_refl, is_empty,
  has_prefix, codes, if◌then◌else◌, Bool-cases,
}
use mathlib.Core.Bool.{false≢true}
use mathlib.Core.Path.{fun_ext, subst}
use plex_mirror.Base.Base64.{Bytes}
use plex_mirror.Settings.Crypto
use plex_mirror.Settings.Crypto.{Cipher, Crypt, is_nil, cipher_prefix, decrypt_value, encrypt_value}
use plex_mirror.Settings.Crypto.Inverse.{IsAead, IsDraw, reads_back, decrypt_value-plain}
use plex_mirror.Settings.Store.{
  Setting, Faults, StoreError, Attempt, ok, err, Map, assign, no_entries, is_secret_key,
  is_reserved, lookup, put, visible, is_exposed, exposed, encoded, encode_for_store, write, written,
  kept, set_one, rewrite, encrypt_plaintext_secrets, query_failed,
}
use plex_mirror.Settings.Store.Rows.{IsWellFormed, IsFlagged, put-All}
use plex_mirror.Settings.Store.Reading.{reads, read_rows-lookup, shown}
use plex_mirror.Settings.Store.Writing.{
  IsStorable, IsRowOf, IsWritten, encode_for_store-IsRowOf, write-IsWritten, copy_into,
}
use plex_mirror.Settings.Store.Sealing.Exposed.{
  IsRead, exposed-put, exposed-IsRead, secret-ne-reserved,
}

-- Why the rewriting fails: the scan does, or the write of a setting.
abbrev pub IsCause : Cipher → Bytes → (Text → Option Bytes) → Faults → ℕ → StoreError → Type 0
IsCause cipher key nonces faults now e =
    (faults.query ≡ true)
    ⊎ ((k : Text) × (v : Text) × (xs : List Setting) × (write cipher key nonces faults now k v xs
          ≡ err e))

module _ (cipher : Cipher) (aead : IsAead cipher) (key : Bytes) (nonces : Text → Option Bytes)
    (draws : (k : Text) → IsDraw cipher (nonces k)) (faults : Faults) (now : ℕ)
    (keyed : is_nil key ≡ false) where
  -- Assigning what is there changes nothing.
  assign_same : (m : Map) (k v : Text) → m k ≡ some v → assign m k v ≡ m
  assign_same m k v e = fun_ext (λ (n : Text). elim (Bool-cases (text_eq k n)) [
    | inl f ↦ rw f (sym e ∙ ap m ((text_eq_iff k n).0 f))
    | inr f ↦ rw f refl
  ])

  abbrev after : List (Text × Text) → List Setting → List Setting × Attempt (Unit {0})
  after kv rows = rewrite cipher key nonces faults now kv rows

  -- A write puts one row, which no longer stands in plaintext.
  abbrev IsPut : Text → List Setting → Attempt (List Setting) → Type 0
  IsPut k rows (err e) = Unit
  IsPut k rows (ok rows') =
      (s : Setting) × (rows' ≡ put s rows) × (s.key ≡ k) × (is_exposed s ≡ false) × IsFlagged s

  abbrev IsFlaggedRow : Attempt Setting → Type 0
  IsFlaggedRow (err e) = Unit
  IsFlaggedRow (ok s) = IsFlagged s

  encode_for_store-IsFlagged :
      (k v : Text) → IsFlaggedRow (encode_for_store cipher key nonces faults now k v)
  unfolding encode_for_store
  encode_for_store-IsFlagged k v = elim (Bool-cases (is_secret_key k)) [
    | inr e ↦ rw e (λ h. absurd (false≢true (sym e ∙ h)))
    | inl e ↦ rw e (secret (encrypt_value cipher (nonces k) key v))
  ]
    where
      secret : (c : Crypt Text) → IsFlaggedRow (encoded cipher key nonces faults now k c)
      secret (Crypto.ok stored) = λ h. refl
      secret (Crypto.err x) = tt

  write-IsPut :
      (k v : Text) (rows : List Setting)
      → IsPut k rows (write cipher key nonces faults now k v rows)
  unfolding write
  write-IsPut k v rows =
      row (encode_for_store cipher key nonces faults now k v)
        (encode_for_store-IsRowOf cipher aead key nonces draws faults now k v (λ _. rw keyed refl))
        (encode_for_store-IsFlagged k v)
    where
      row :
          (a : Attempt Setting)
          → IsRowOf cipher aead key nonces draws faults now k v a
          → IsFlaggedRow a
          → IsPut k rows (written cipher key nonces faults now k a rows)
      row (err e) w flagged = tt
      row (ok s) (same, shows, hidden, marked) flagged = elim (Bool-cases (faults.statement k)) [
        | inl f ↦ rw f tt
        | inr f ↦ rw f (s, refl, same, hidden keyed, flagged)
      ]

  -- The loop keeps what GetAll reads and the marks, and where it ends well it leaves nothing of the
  -- scan.
  pub record IsRewritten (rows : List Setting) (left : List Setting × Attempt (Unit {0}))
      : Type 0 where
    pub well_formed : IsWellFormed left.0
    pub reads_same : reads cipher key left.0 ≡ reads cipher key rows
    pub flagged : All IsFlagged rows → All IsFlagged left.0
    pub outcome :
        ((e : StoreError) × (left.1 ≡ err e) × IsCause cipher key nonces faults now e)
        ⊎ ((left.1 ≡ ok tt) × (exposed left.0 ≡ []))

  rewrite-IsRewritten :
      (kv : List (Text × Text)) (rows : List Setting)
      → IsWellFormed rows
      → exposed rows ≡ kv
      → All (IsRead cipher key (reads cipher key rows)) kv
      → IsRewritten rows (after kv rows)
  unfolding rewrite set_one
  rewrite-IsRewritten [] rows u e h = record {
    well_formed = u;
    reads_same = refl;
    flagged = λ m. m;
    outcome = inr (refl, e);
  }
  rewrite-IsRewritten ((k, v) ∷ kv) rows u e ((secret, read), h) =
      step (write cipher key nonces faults now k v rows)
        (write-IsWritten cipher aead key nonces draws faults now k v rows u
          (secret-ne-reserved k secret, λ _. rw keyed refl))
        (write-IsPut k v rows) refl (λ rows' u' e' h'. rewrite-IsRewritten kv rows' u' e' h')
    where
      step :
          (a : Attempt (List Setting))
          → IsWritten cipher aead key nonces draws faults now ((k, v) ∷ []) rows a
          → IsPut k rows a
          → write cipher key nonces faults now k v rows ≡ a
          → ((rows' : List Setting)
              → IsWellFormed rows'
              → exposed rows' ≡ kv
              → All (IsRead cipher key (reads cipher key rows')) kv
              → IsRewritten rows' (after kv rows'))
          → IsRewritten rows (
              let (rows', result) = kept cipher key nonces faults now rows a in
              elim result [ err e ↦ (rows', err e) | ok done ↦ after kv rows' ])
      step (err x) w p why rest = record {
        well_formed = u;
        reads_same = refl;
        flagged = λ m. m;
        outcome = inl (x, refl, inr (k, v, rows, why));
      }
      step (ok rows') w (s, put, same, hidden, flag) why rest =
          let same_reads : reads cipher key rows' ≡ reads cipher key rows =
            w.1 ∙ assign_same (reads cipher key rows) k v read in
          let sealed =
            rest rows' w.0 (rw put (exposed-put k v kv s rows u.0 same hidden e))
              (rw same_reads h) in
          record {
            well_formed = sealed.well_formed;
            reads_same = sealed.reads_same ∙ same_reads;
            flagged = λ m. sealed.flagged (rw put (put-All IsFlagged s rows flag m));
            outcome = sealed.outcome;
          }

  encrypt_plaintext_secrets-scanned :
      (rows : List Setting)
      → faults.query ≡ false
      → encrypt_plaintext_secrets cipher key nonces faults now rows ≡ after (exposed rows) rows
  unfolding encrypt_plaintext_secrets
  encrypt_plaintext_secrets-scanned rows q = rw (keyed, q) refl

  encrypt_plaintext_secrets-unscanned :
      (rows : List Setting)
      → faults.query ≡ true
      → encrypt_plaintext_secrets cipher key nonces faults now rows ≡ (rows, err query_failed)
  unfolding encrypt_plaintext_secrets
  encrypt_plaintext_secrets-unscanned rows q = rw (keyed, q) refl

  -- EncryptPlaintextSecrets under a key, by its own scan.
  pub encrypt_plaintext_secrets-IsRewritten :
      (rows : List Setting)
      → IsWellFormed rows
      → IsRewritten rows (encrypt_plaintext_secrets cipher key nonces faults now rows)
  encrypt_plaintext_secrets-IsRewritten rows u = elim (Bool-cases faults.query) [
    | inl q ↦ rw (encrypt_plaintext_secrets-unscanned rows q) (record {
      well_formed = u;
      reads_same = refl;
      flagged = λ m. m;
      outcome = inl (query_failed, refl, inl q);
    })
    | inr q ↦
        subst (IsRewritten rows) (sym (encrypt_plaintext_secrets-scanned rows q))
          (rewrite-IsRewritten (exposed rows) rows u refl (exposed-IsRead cipher key rows u))
  ]
