-- ===== src/Settings/Store/Sealing/Sealed.antt =====
-- EncryptPlaintextSecrets of internal/settings/settings.go: the credentials that it encrypts.
use mathlib.Core.Bool.{false≢true}
use mathlib.Core.Option.{none-ne-some}
use plex_mirror.Base.{
  ℕ, ◌≡◌, ◌≢◌, refl, sym, ap, ◌∙◌, ◌⊎◌, inl, inr, true, false, ◌||◌, Option, none, some, of_some,
  List, [], ◌∷◌, All, Text, codes, text_eq, text_eq_iff, is_empty, has_prefix, arith, Bool-cases,
  Option-cases,
}
use plex_mirror.Base.Base64.{Bytes}
use plex_mirror.Settings.Crypto
use plex_mirror.Settings.Crypto.{Cipher, Crypt, is_nil, cipher_prefix, decrypt_value}
use plex_mirror.Settings.Crypto.Inverse.{IsAead, IsDraw, decrypt_value-plain}
use plex_mirror.Settings.Store.{
  Setting, Faults, StoreError, Attempt, ok, err, no_entries, is_secret_key, lookup, visible,
  or_blank, is_exposed, exposed, encrypt_plaintext_secrets,
}
use plex_mirror.Settings.Store.Rows.{IsWellFormed, IsFlagged}
use plex_mirror.Settings.Store.Reading.{reads, read_rows-lookup}
use plex_mirror.Settings.Store.Sealing.Exposed.{secret-ne-reserved}
use plex_mirror.Settings.Store.Sealing.{IsCause, encrypt_plaintext_secrets-IsRewritten}

-- The two credentials of the settings.
abbrev pub IsCredential : Text → Type 0
IsCredential k = (k ≡ codes "plex.token") ⊎ (k ≡ codes "jellyfin.token")

-- A credential whose row holds its text, which is not taken for a ciphertext.
abbrev pub IsPlain : List Setting → Text → Text → Type 0
IsPlain rows k v =
    IsCredential k
    × ((r : Setting) × (lookup k rows ≡ some r) × (r.value ≡ v))
    × (v ≢ [])
    × (has_prefix (codes "gcm:") v ≡ false)

-- A row that holds a ciphertext of the text.
abbrev pub IsCiphered : Cipher → Bytes → List Setting → Text → Text → Type 0
IsCiphered cipher key rows k v =
    (s : Setting) × (lookup k rows ≡ some s)
    × (has_prefix (codes "gcm:") s.value ≡ true)
    × (decrypt_value cipher key s.value ≡ Crypto.ok v)

of_ok : {x y : Text} → Crypto.ok x ≡ Crypto.ok y → x ≡ y
of_ok h = cc

credential-secret : (k : Text) → IsCredential k → is_secret_key k ≡ true
unfolding text_eq
credential-secret k (inl e) = rw e refl
credential-secret k (inr e) = rw e refl

lookup-All {κ} :
    (P : Setting → Type κ) (k : Text) (r : Setting) (rows : List Setting)
    → All P rows
    → lookup k rows ≡ some r
    → (P r) × (r.key ≡ k)
unfolding lookup
lookup-All P k r [] h e = absurd (none-ne-some _ e)
lookup-All P k r (x ∷ xs) h e = elim (Bool-cases (text_eq x.key k)) [
  | inl f ↦
      let same : x ≡ r = of_some (rw f at e) in
      (rw (← same) h.0, rw (← same) ((text_eq_iff x.key k).0 f))
  | inr f ↦ lookup-All P k r xs h.1 (rw f at e)
]

-- Where the scan finds nothing, no row is exposed.
unexposed : (rows : List Setting) → exposed rows ≡ [] → All (λ r. is_exposed r ≡ false) rows
unfolding exposed
unexposed [] e = tt
unexposed (r ∷ rs) e = elim (Bool-cases (is_exposed r)) [
  | inl x ↦ absurd (filled (rw x at e))
  | inr x ↦ (x, unexposed rs (rw x at e))
]
  where
    filled : ¬ ((r.key, r.value) ∷ exposed rs ≡ [])
    filled h = cc

module _ (cipher : Cipher) (key : Bytes) where
  -- What GetAll reads of a credential.
  reads-secret :
      (rows : List Setting) (k : Text) (o : Option Setting)
      → IsWellFormed rows
      → is_secret_key k ≡ true
      → lookup k rows ≡ o
      → reads cipher key rows k ≡ (elim o [ none ↦ none | some r ↦ some (visible cipher key r) ])
  reads-secret rows k none u h e = read_rows-lookup cipher key rows no_entries k u.0 ∙ rw e refl
  reads-secret rows k (some r) u h e =
      read_rows-lookup cipher key rows no_entries k u.0 ∙ rw (e, secret-ne-reserved k h) refl

  visible-secret :
      (r : Setting)
      → is_secret_key r.key ≡ true
      → visible cipher key r ≡ or_blank (decrypt_value cipher key r.value)
  unfolding visible
  visible-secret r h = rw (secret h) refl
    where
      secret : is_secret_key r.key ≡ true → (r.is_secret || is_secret_key r.key) ≡ true
      secret h = ground (arith, h)

  opened : (c : Crypt Text) (v : Text) → v ≢ [] → or_blank c ≡ v → c ≡ Crypto.ok v
  opened (Crypto.ok plain) v ne e = ap Crypto.ok e
  opened (Crypto.err x) v ne e = absurd (ne (sym e))

  plain_read :
      (rows : List Setting) (k v : Text)
      → IsWellFormed rows
      → IsPlain rows k v
      → reads cipher key rows k ≡ some v
  plain_read rows k v u (c, (r, e, same), ne, p) =
      let secret = credential-secret k c in
      let named = (lookup-All (λ _. Unit {0}) k r rows (everywhere rows) e).1 in
      let read : decrypt_value cipher key r.value ≡ Crypto.ok v =
        rw same (decrypt_value-plain cipher key v p) in
      reads-secret rows k (some r) u secret e
      ∙ ap some (visible-secret r (rw named secret) ∙ ap or_blank read)
    where
      everywhere : (xs : List Setting) → All (λ _. Unit {0}) xs
      everywhere [] = tt
      everywhere (x ∷ xs) = (tt, everywhere xs)

  ciphered :
      (rows : List Setting) (k v : Text)
      → IsWellFormed rows
      → All (λ r. is_exposed r ≡ false) rows
      → All IsFlagged rows
      → IsCredential k
      → v ≢ []
      → reads cipher key rows k ≡ some v
      → IsCiphered cipher key rows k v
  ciphered rows k v u hidden flagged c ne e = elim (Option-cases (lookup k rows)) [
    | inl l ↦
        absurd (none-ne-some v (sym (reads-secret rows k none u (credential-secret k c) l) ∙ e))
    | inr (s, l) ↦
        let secret = credential-secret k c in
        let (unexposed_s, named) = lookup-All (λ r. is_exposed r ≡ false) k s rows hidden l in
        let (flag, _) = lookup-All IsFlagged k s rows flagged l in
        let shows : visible cipher key s ≡ v =
          of_some (sym (reads-secret rows k (some s) u secret l) ∙ e) in
        let opens =
          opened (decrypt_value cipher key s.value) v ne
            (sym (visible-secret s (rw named secret)) ∙ shows) in
        (s, l, prefixed s (flag (rw named secret)) unexposed_s opens, opens)
  ]
    where
      filled : (t : Text) → t ≢ [] → is_empty t ≡ false
      filled [] h = absurd (h refl)
      filled (x ∷ xs) h = refl

      prefixed :
          (s : Setting)
          → s.is_secret ≡ true
          → is_exposed s ≡ false
          → decrypt_value cipher key s.value ≡ Crypto.ok v
          → has_prefix (codes "gcm:") s.value ≡ true
      prefixed s secret h opens = elim (Bool-cases (has_prefix (codes "gcm:") s.value)) [
        | inl p ↦ p
        | inr p ↦
            let same : s.value ≡ v =
              of_ok (sym (decrypt_value-plain cipher key s.value p) ∙ opens) in
            absurd (false≢true (sym (rw (secret, filled s.value (λ x. ne (sym same ∙ x)), p) at h)))
      ]

-- What EncryptPlaintextSecrets leaves of the settings.
pub record IsSealed (cipher : Cipher) (key : Bytes) (nonces : Text → Option Bytes) (faults : Faults)
    (now : ℕ) (rows : List Setting) (left : List Setting × Attempt (Unit {0})) : Type 0 where
  pub well_formed : IsWellFormed left.0
  pub reads_same : reads cipher key left.0 ≡ reads cipher key rows
  pub outcome :
      ((e : StoreError) × (left.1 ≡ err e) × IsCause cipher key nonces faults now e)
      ⊎ ((left.1 ≡ ok tt) × ((k v : Text) → IsPlain rows k v → IsCiphered cipher key left.0 k v))

-- EncryptPlaintextSecrets under a key, on settings whose credentials are marked: every setting reads
-- as before, whatever fails. It fails only where its scan or a write fails; else every token of
-- Plex or Jellyfin that stood in plaintext, and did not begin with "gcm:", is stored as a ciphertext
-- that opens to it under the key.
pub encrypt_plaintext_secrets-IsSealed :
    (cipher : Cipher) (aead : IsAead cipher) (key : Bytes) (nonces : Text → Option Bytes)
    (draws : (k : Text) → IsDraw cipher (nonces k)) (faults : Faults) (now : ℕ)
    (rows : List Setting)
    → is_nil key ≡ false
    → IsWellFormed rows
    → All IsFlagged rows
    → IsSealed cipher key nonces faults now rows
        (encrypt_plaintext_secrets cipher key nonces faults now rows)
encrypt_plaintext_secrets-IsSealed cipher aead key nonces draws faults now rows keyed u flagged =
    let w =
      encrypt_plaintext_secrets-IsRewritten cipher aead key nonces draws faults now keyed rows u in
    record {
      well_formed = w.well_formed;
      reads_same = w.reads_same;
      outcome = elim w.outcome [
        | inl failed ↦ inl failed
        | inr (done, nothing) ↦ inr (
          done,
          λ k v plain.
              ciphered cipher key _ k v w.well_formed (unexposed _ nothing) (w.flagged flagged)
                plain.0 plain.2
                (ap (λ (m : Text → Option Text). m k) w.reads_same
                  ∙ plain_read cipher key rows k v u plain),
        )
      ];
    }
