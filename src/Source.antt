-- ===== src/Source.antt =====
-- internal/source/source.go: the media descriptor that the adapters share, and their errors.
use plex_mirror.Base.{ℕ, Text}
use plex_mirror.Base.Int.{ℤ}

pub data ItemKind : Type 0 where
  movie show season episode track other : ItemKind

pub record Item : Type 0 where
  pub id : Text
  pub title : Text
  pub kind : ItemKind
  pub year : ℕ
  pub container : Text
  pub size_bytes : ℕ
  pub show_title : Text
  pub season_number : ℤ
  pub episode_number : ℤ
  pub parent_id : Text

-- The sentinels that a source's error wraps; `canceled` and `deadline` are the context's, and
-- `unwrapped` an error with none of them.
pub data SourceError : Type 0 where
  auth not_found network unsupported canceled deadline unwrapped : SourceError

pub data Fetched {ℓ} (A : Type ℓ) : Type ℓ where
  got : A → Fetched A
  fault : SourceError → Fetched A
