-- ===== src/Settings/Store/Sealing/Exposed.antt =====
-- EncryptPlaintextSecrets of internal/settings/settings.go: the rows that its scan collects.
use plex_mirror.Base.{
  ◌≡◌, refl, sym, ap, ◌∙◌, inl, inr, arith, true, false, some, List, [], ◌∷◌, All, All-map,
  All-both, Text, text_eq, text_eq_iff, text_eq_refl, has_prefix, codes, Bool-cases, is_some,
}
use plex_mirror.Base.Base64.{Bytes}
use plex_mirror.Settings.Crypto.{Cipher, cipher_prefix}
use plex_mirror.Settings.Crypto.Inverse.{decrypt_value-plain}
use plex_mirror.Settings.Store.{
  Setting, Map, no_entries, is_secret_key, is_reserved, lookup, put, visible, or_blank, is_exposed,
  exposed,
}
use plex_mirror.Settings.Store.Rows.{IsUnique, IsMarked, IsWellFormed}
use plex_mirror.Settings.Store.Reading.{reads, read_rows-lookup}

pub secret-ne-reserved : (k : Text) → is_secret_key k ≡ true → is_reserved k ≡ false
unfolding has_prefix
secret-ne-reserved k h = elim (Bool-cases (text_eq k (codes "plex.token"))) [
  | inl e ↦ rw ((text_eq_iff k (codes "plex.token")).0 e) refl
  | inr e ↦ rw ((text_eq_iff k (codes "jellyfin.token")).0 (rw e at h)) refl
]

-- A row that the scan collects is found under its key.
exposed-lookup :
    (k v : Text) (kv : List (Text × Text)) (rows : List Setting)
    → exposed rows ≡ (k, v) ∷ kv
    → is_some (lookup k rows) ≡ true
unfolding exposed lookup
exposed-lookup k v kv [] e = cc
exposed-lookup k v kv (r ∷ rs) e = elim (Bool-cases (is_exposed r)) [
  | inl x ↦ rw (first (rw x at e), text_eq_refl k) refl
  | inr x ↦ elim (Bool-cases (text_eq r.key k)) [
    | inl f ↦ rw f refl
    | inr f ↦ rw f (exposed-lookup k v kv rs (rw x at e))
  ]
]
  where
    first : (r.key, r.value) ∷ exposed rs ≡ (k, v) ∷ kv → r.key ≡ k
    first e = cc

-- Sealing the first row of the scan leaves the rest of the scan.
pub exposed-put :
    (k v : Text) (kv : List (Text × Text)) (s : Setting) (rows : List Setting)
    → IsUnique rows
    → s.key ≡ k
    → is_exposed s ≡ false
    → exposed rows ≡ (k, v) ∷ kv
    → exposed (put s rows) ≡ kv
unfolding exposed put
exposed-put k v kv s [] u same sealed e = cc
exposed-put k v kv s (r ∷ rs) u same sealed e = elim (Bool-cases (is_exposed r)) [
  | inl x ↦ rw (key_eq (first (rw x at e)), sealed) (rest (rw x at e))
  | inr x ↦ elim (Bool-cases (text_eq r.key s.key)) [
    | inl f ↦ twice f (exposed-lookup k v kv rs (rw x at e))
    | inr f ↦ rw (f, x) (exposed-put k v kv s rs u.1 same sealed (rw x at e))
  ]
]
  where
    first : (r.key, r.value) ∷ exposed rs ≡ (k, v) ∷ kv → r.key ≡ k
    first e = cc

    rest : (r.key, r.value) ∷ exposed rs ≡ (k, v) ∷ kv → exposed rs ≡ kv
    rest e = cc

    key_eq : r.key ≡ k → text_eq r.key s.key ≡ true
    key_eq f = (text_eq_iff r.key s.key).1 (f ∙ sym same)

    twice :
        text_eq r.key s.key ≡ true → is_some (lookup k rs) ≡ true → exposed (put s (r ∷ rs)) ≡ kv
    twice f found =
        let found' : is_some (lookup r.key rs) ≡ true =
          rw ((text_eq_iff r.key s.key).0 f ∙ same) found in
        cc (ap is_some u.0)

-- Each row is the one that is found under its key.
lookup-All : (rows : List Setting) → IsUnique rows → All (λ r. lookup r.key rows ≡ some r) rows
unfolding lookup
lookup-All [] u = tt
lookup-All (r ∷ rs) u = (
  rw (text_eq_refl r.key) refl,
  All-map (λ x. lookup x.key rs ≡ some x) (λ x. lookup x.key (r ∷ rs) ≡ some x) below rs
      (lookup-All rs u.1),
)
  where
    below : (x : Setting) → lookup x.key rs ≡ some x → lookup x.key (r ∷ rs) ≡ some x
    below x e = elim (Bool-cases (text_eq r.key x.key)) [
      | inl f ↦ cc (u.0, ap (λ (k : Text). lookup k rs) ((text_eq_iff r.key x.key).0 f), e)
      | inr f ↦ rw f e
    ]

exposed-All {κ} :
    (P : Text × Text → Type κ) (rows : List Setting)
    → All (λ r. is_exposed r ≡ true → P (r.key, r.value)) rows
    → All P (exposed rows)
unfolding exposed
exposed-All P [] h = tt
exposed-All P (r ∷ rs) h = elim (Bool-cases (is_exposed r)) [
  | inl x ↦ rw x (h.0 x, exposed-All P rs h.1)
  | inr x ↦ rw x (exposed-All P rs h.1)
]

exposed_parts :
    (r : Setting)
    → is_exposed r ≡ true
    → (r.is_secret ≡ true) × (has_prefix cipher_prefix r.value ≡ false)
exposed_parts r x = ground (arith, x)

module _ (cipher : Cipher) (key : Bytes) where
  -- GetAll reads a row that the scan collects as it stands.
  abbrev pub IsRead : Map → Text × Text → Type 0
  IsRead m (k, v) = (is_secret_key k ≡ true) × (m k ≡ some v)

  exposed-visible : (r : Setting) → is_exposed r ≡ true → visible cipher key r ≡ r.value
  unfolding visible
  exposed-visible r x =
      rw (exposed_parts r x).0
        (ap or_blank (decrypt_value-plain cipher key r.value (exposed_parts r x).1))

  pub exposed-IsRead :
      (rows : List Setting)
      → IsWellFormed rows
      → All (IsRead (reads cipher key rows)) (exposed rows)
  exposed-IsRead rows (u, c) = exposed-All (IsRead (reads cipher key rows)) rows (
      All-both (λ r. lookup r.key rows ≡ some r) IsMarked
        (λ r. is_exposed r ≡ true → IsRead (reads cipher key rows) (r.key, r.value)) read rows
        (lookup-All rows u) c)
    where
      read :
          (r : Setting)
          → lookup r.key rows ≡ some r
          → (r.is_secret ≡ true → is_secret_key r.key ≡ true)
          → is_exposed r ≡ true
          → IsRead (reads cipher key rows) (r.key, r.value)
      read r e secret x =
          let is_key = secret (exposed_parts r x).0 in
          (
            is_key,
            read_rows-lookup cipher key rows no_entries r.key u
                ∙ rw (e, secret-ne-reserved r.key is_key) (ap some (exposed-visible r x)),
          )
