-- ===== src/Config.antt =====
-- internal/config/config.go: the configuration, its sizes and library directories, and
-- Load in Config/Load.antt. An error stands for its message.
pub mod Unit
pub mod Size
pub mod Printed
pub mod Load
pub mod Valid
use plex_mirror.Base.{
  ℕ, ◌*◌, ◌/◌, ◌-◌, ◌^◌, Bool, true, false, not, ◌&&◌, ◌||◌, Option, none, some, List, [], ◌∷◌,
  if◌then◌else◌, ltb, ◌==◌, Text, codes, text_eq, is_empty, has_prefix, has_suffix, trim_suffix,
  trim_space, to_upper,
}
use plex_mirror.Base.Int.{ℤ, pos, negsuc, wrap64, leb_int}
use plex_mirror.Base.Decimal.{parse_int}

pub data DirError : Type 0 where
  empty separators dot_name leading_dot : DirError

-- strings.ContainsAny(name, `/\`)
unfoldable pub has_separator : Text → Bool
has_separator [] = false
has_separator (c ∷ cs) = c == b'/' || c == b'\\' || has_separator cs

-- ValidateLibraryDir: no error is none.
unfoldable pub validate_library_dir : Text → Option DirError
unfolding has_separator text_eq has_prefix
validate_library_dir name =
    if is_empty name
    then some empty
    else if has_separator name
    then some separators
    else if text_eq name (codes ".") || text_eq name (codes "..")
    then some dot_name
    else if has_prefix (codes ".") name
    then some leading_dot
    else none

pub data SizeError : Type 0 where
  not_a_size negative_size too_large : SizeError

pub data SizeResult : Type 0 where
  ok : ℤ → SizeResult
  err : SizeError → SizeResult

-- The switch of ParseSize: the text before the suffix, and its multiplier.
unfoldable pub split_unit : Text → Text × ℕ
unfolding has_suffix trim_suffix
split_unit s =
    if has_suffix (codes "TB") s
    then (trim_suffix (codes "TB") s, 2 ^ 40)
    else if has_suffix (codes "GB") s
    then (trim_suffix (codes "GB") s, 2 ^ 30)
    else if has_suffix (codes "MB") s
    then (trim_suffix (codes "MB") s, 2 ^ 20)
    else if has_suffix (codes "KB") s
    then (trim_suffix (codes "KB") s, 2 ^ 10)
    else if has_suffix (codes "T") s
    then (trim_suffix (codes "T") s, 2 ^ 40)
    else if has_suffix (codes "G") s
    then (trim_suffix (codes "G") s, 2 ^ 30)
    else if has_suffix (codes "M") s
    then (trim_suffix (codes "M") s, 2 ^ 20)
    else if has_suffix (codes "K") s
    then (trim_suffix (codes "K") s, 2 ^ 10)
    else (s, 1)

-- The checks of ParseSize on the parsed number, and the product, which wraps as an int64 does.
unfoldable pub scale : Option ℤ → ℕ → SizeResult
unfolding wrap64
scale none mult = err not_a_size
scale (some (negsuc n)) mult = err negative_size
scale (some (pos n)) mult =
    if ltb 1 mult && ltb ((2 ^ 63 - 1) / mult) n then err too_large else ok (wrap64 (n * mult))

unfoldable pub parse_size : Text → SizeResult
unfolding scale parse_int split_unit trim_space to_upper text_eq
parse_size raw =
    let s = trim_space (to_upper raw) in
    let unit = split_unit s in
    if is_empty s || text_eq s (codes "0")
    then ok (pos 0)
    else scale (parse_int (trim_space unit.0)) unit.1

-- time.ParseDuration is a parameter of what reads durations. A cap of 0 is no cap.
pub record Config : Type 0 where
  pub http_addr : Text
  pub db_path : Text
  pub media_root : Text
  pub log_level : Text
  pub plex_url : Text
  pub plex_token : Text
  pub plex_server : Text
  pub plex_client_id : Text
  pub jellyfin_url : Text
  pub jellyfin_token : Text
  pub jellyfin_user : Text
  pub auth_token : Text
  pub secret_key : Text
  pub movies_dir : Text
  pub shows_dir : Text
  pub other_dir : Text
  pub storage_hard_cap_bytes : ℤ
  pub storage_soft_cap_bytes : ℤ
  pub storage_sweep_every : ℤ
  pub download_concurrency : ℤ
  pub download_poll_every : ℤ
  pub health_check_every : ℤ
  pub download_buffer_bytes : ℤ

-- An error names the variable or the setting.
pub data ConfigError : Type 0 where
  bad_log_level : ConfigError
  bad_dir : Text → DirError → ConfigError
  bad_size : Text → SizeError → ConfigError
  soft_above_hard : ConfigError
  bad_duration : Text → ConfigError
  negative_duration : Text → ConfigError
  bad_concurrency : ConfigError
  buffer_above_max : ConfigError

pub data Checked {ℓ} (A : Type ℓ) : Type ℓ where
  valid : A → Checked A
  invalid : ConfigError → Checked A

infixl 5 ◌>>=◌
abbrev pub ◌>>=◌ {ℓ κ} : {A : Type ℓ} {B : Type κ} → Checked A → (A → Checked B) → Checked B
valid a >>= f = f a
invalid e >>= f = invalid e

abbrev pub max_download_buffer : ℕ
max_download_buffer = 256 * 2 ^ 20

unfoldable pub check_dir : Text → Text → Checked Text
unfolding validate_library_dir
check_dir key dir = elim (validate_library_dir dir) [
  | none ↦ valid dir
  | some e ↦ invalid (bad_dir key e)
]

abbrev pub sized : Text → SizeResult → Checked ℤ
sized key (ok n) = valid n
sized key (err e) = invalid (bad_size key e)

unfoldable pub check_size : Text → Text → Checked ℤ
unfolding parse_size
check_size key text = sized key (parse_size text)

unfoldable pub check_buffer : Text → Text → Checked ℤ
unfolding check_size leb_int
check_buffer key text = do
  n ← check_size key text
  if leb_int n (pos max_download_buffer) then valid n else invalid buffer_above_max

-- strconv.Atoi, and 1..32
unfoldable pub check_concurrency : Text → Checked ℤ
unfolding parse_int leb_int
check_concurrency text = elim (parse_int text) [
  | none ↦ invalid bad_concurrency
  | some n ↦ if leb_int (pos 1) n && leb_int n (pos 32) then valid n else invalid bad_concurrency
]

unfoldable pub check_duration : (Text → Option ℤ) → Text → Text → Checked ℤ
unfolding leb_int
check_duration parse_duration key text = elim (parse_duration text) [
  | none ↦ invalid (bad_duration key)
  | some d ↦ if leb_int (pos 0) d then valid d else invalid (negative_duration key)
]

-- Both caps are set, and the soft one is above the hard one.
unfoldable pub soft_exceeds : ℤ → ℤ → Bool
unfolding leb_int
soft_exceeds hard soft = leb_int (pos 1) hard && leb_int (pos 1) soft && not (leb_int soft hard)

-- hard > 0 && soft > 0 && soft > hard is refused.
unfoldable pub check_caps : ℤ → ℤ → Checked (Unit {0})
unfolding soft_exceeds
check_caps hard soft = if soft_exceeds hard soft then invalid soft_above_hard else valid tt
