-- ===== src/Config/Valid.antt =====
-- What Load of internal/config/config.go checks of the configuration that it returns.
use plex_mirror.Base.{
  ℕ, ◌≡◌, ◌<◌, ◌^◌, refl, inl, inr, true, false, ◌&&◌, Option, none, arith, Text, Bool-cases,
  Option-cases, &&-cases,
}
use plex_mirror.Base.Int.{ℤ, pos, leb_int}
use plex_mirror.Config.{
  Config, SizeResult, Checked, valid, invalid, ◌>>=◌, validate_library_dir, check_dir, sized,
  check_size, check_buffer, check_concurrency, check_duration, soft_exceeds, check_caps,
  max_download_buffer, parse_size, ok, err,
}
use plex_mirror.Base.Decimal.{parse_int}
use plex_mirror.Config.Size.{parse_size-IsSize}

-- A byte count in the range of int64.
abbrev pub IsCount : ℤ → Type 0
IsCount z = (n : ℕ) × (z ≡ pos n) × (n < 2 ^ 63)

abbrev pub IsDir : Text → Type 0
IsDir name = validate_library_dir name ≡ none

abbrev pub IsDuration : ℤ → Type 0
IsDuration d = leb_int (pos 0) d ≡ true

abbrev pub IsConcurrency : ℤ → Type 0
IsConcurrency n = (leb_int (pos 1) n ≡ true) × (leb_int n (pos 32) ≡ true)

abbrev pub IsBuffer : ℤ → Type 0
IsBuffer n = IsCount n × (leb_int n (pos max_download_buffer) ≡ true)

-- A configuration that the program may run with.
pub record IsValid (c : Config) : Type 0 where
  pub movies_dir : IsDir c.movies_dir
  pub shows_dir : IsDir c.shows_dir
  pub other_dir : IsDir c.other_dir
  pub hard_cap : IsCount c.storage_hard_cap_bytes
  pub soft_cap : IsCount c.storage_soft_cap_bytes
  pub caps : soft_exceeds c.storage_hard_cap_bytes c.storage_soft_cap_bytes ≡ false
  pub sweep_every : IsDuration c.storage_sweep_every
  pub concurrency : IsConcurrency c.download_concurrency
  pub poll_every : IsDuration c.download_poll_every
  pub health_every : IsDuration c.health_check_every
  pub buffer : IsBuffer c.download_buffer_bytes

-- Where a check passes, its value satisfies the predicate.
abbrev pub Ensures {ℓ κ} : {A : Type ℓ} → (A → Type κ) → Checked A → Type κ
Ensures P (valid a) = P a
Ensures P (invalid e) = Unit

pub Ensures-bind {ℓ κ μ ν} :
    {A : Type ℓ} {B : Type κ} (P : A → Type μ) (Q : B → Type ν) (m : Checked A) (f : A → Checked B)
    → Ensures P m
    → ((a : A) → P a → Ensures Q (f a))
    → Ensures Q (m >>= f)
Ensures-bind P Q (valid a) f h k = k a h
Ensures-bind P Q (invalid e) f h k = tt

pub Ensures-valid {ℓ κ} :
    {A : Type ℓ} (P : A → Type κ) (m : Checked A) (a : A) → Ensures P m → m ≡ valid a → P a
Ensures-valid P (valid b) a h e = let same : b ≡ a = cc in rw (← same) h
Ensures-valid P (invalid x) a h e = cc

pub check_dir-IsDir : (key name : Text) → Ensures IsDir (check_dir key name)
unfolding check_dir
check_dir-IsDir key name = elim (Option-cases (validate_library_dir name)) [
  | inl e ↦ rw (e, check_dir, Ensures) e
  | inr (x, e) ↦ rw (e, check_dir, Ensures) tt
]

pub check_size-IsCount : (key text : Text) → Ensures IsCount (check_size key text)
unfolding check_size
check_size-IsCount key text = counted (parse_size text) refl
  where
    counted : (o : SizeResult) → parse_size text ≡ o → Ensures IsCount (sized key o)
    counted (err x) e = tt
    counted (ok z) e = elim ((parse_size-IsSize text z).0 e) [
      | inl (_, zero) ↦ (0, zero, ground arith)
      | inr w ↦ (_, w.product, w.fits)
    ]

pub check_buffer-IsBuffer : (key text : Text) → Ensures IsBuffer (check_buffer key text)
unfolding check_buffer
check_buffer-IsBuffer key text =
    Ensures-bind IsCount IsBuffer (check_size key text) _ (check_size-IsCount key text) (λ n w.
      elim (Bool-cases (leb_int n (pos max_download_buffer))) [
        | inl e ↦ rw e (w, e)
        | inr e ↦ rw e tt
      ])

pub check_concurrency-IsConcurrency : (text : Text) → Ensures IsConcurrency (check_concurrency text)
unfolding check_concurrency
check_concurrency-IsConcurrency text = elim (Option-cases (parse_int text)) [
  | inl e ↦ rw (e, check_concurrency, Ensures) tt
  | inr (n, e) ↦ elim (Bool-cases (leb_int (pos 1) n && leb_int n (pos 32))) [
    | inl h ↦
        rw (e, check_concurrency, Ensures)
          (rw h (&&-cases (leb_int (pos 1) n) (leb_int n (pos 32)) h))
    | inr h ↦ rw (e, check_concurrency, Ensures) (rw h tt)
  ]
]

pub check_duration-IsDuration :
    (parse_duration : Text → Option ℤ) (key text : Text)
    → Ensures IsDuration (check_duration parse_duration key text)
unfolding check_duration
check_duration-IsDuration parse_duration key text = elim (Option-cases (parse_duration text)) [
  | inl e ↦ rw (e, check_duration, Ensures) tt
  | inr (d, e) ↦ elim (Bool-cases (leb_int (pos 0) d)) [
    | inl h ↦ rw (e, check_duration, Ensures) (rw h h)
    | inr h ↦ rw (e, check_duration, Ensures) (rw h tt)
  ]
]

pub check_caps-within :
    (hard soft : ℤ) → Ensures (λ _. soft_exceeds hard soft ≡ false) (check_caps hard soft)
unfolding check_caps
check_caps-within hard soft = elim (Bool-cases (soft_exceeds hard soft)) [
  | inl e ↦ rw e tt
  | inr e ↦ rw (e, Ensures) e
]
