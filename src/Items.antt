-- ===== src/Items.antt =====
-- The `items` table (internal/db/migrations) and the SQL statements on it as functions. The table
-- is the list of its rows in rowid order with the next AUTOINCREMENT id.
pub mod Lookup
pub mod Order
pub mod Unique
pub mod Single
pub mod Sorting
pub mod Ordering
use plex_mirror.Base.Int.{ℤ}
use plex_mirror.Base.{
  ℕ, suc, ◌+◌, Bool, true, false, ◌&&◌, Option, none, some, List, [], ◌∷◌, ◌++◌, ◌==◌,
  if◌then◌else◌, or_else, Text, text_eq, is_empty,
}

-- The values of the `status` column.
pub data Status : Type 0 where
  queued downloading ready evicted error : Status

abbrev pub is_ready : Status → Bool
is_ready ready = true
is_ready _ = false

abbrev pub is_downloading : Status → Bool
is_downloading downloading = true
is_downloading _ = false

abbrev pub is_queued : Status → Bool
is_queued queued = true
is_queued _ = false

abbrev pub is_error : Status → Bool
is_error error = true
is_error _ = false

-- A permanent failure of one HTTP attempt.
pub data Permanent : Type 0 where
  build_request : Permanent
  content_range_total : ℤ → ℕ → Permanent
  no_partial_file : Permanent
  partial_size : ℕ → ℕ → Permanent
  http_status : ℕ → Permanent

-- A failure that the retry loop retries.
pub data Transient : Type 0 where
  transport : Transient
  truncate_partial : Transient
  http_retryable : ℕ → Transient
  open_partial : Transient
  write_partial : Transient
  read_body : Transient
  sync_partial : Transient
  context_done : Transient

-- What the `error` column records, one constructor for each message.
pub data Message : Type 0 where
  resolve_url : Message
  bad_layout : Message
  permanent : Permanent → Message
  retries_exhausted : Transient → Message
  stat_partial : Message
  size_mismatch : ℕ → ℕ → Message
  rename : Message

pub record Row : Type 0 where
  pub id : ℕ
  pub source : Text
  pub source_key : Text
  pub title : Text
  pub container : Option Text
  pub size_bytes : Option ℕ
  pub local_path : Option Text
  pub status : Status
  pub bytes_done : ℕ
  pub message : Option Message
  pub queued_at : ℕ
  pub started_at : Option ℕ
  pub completed_at : Option ℕ
  pub last_accessed : Option ℕ
  pub last_progress_at : Option ℕ

pub record Table : Type 0 where
  pub rows : List Row
  pub next_id : ℕ

-- COALESCE(size_bytes, 0)
abbrev pub size_of : Row → ℕ
size_of r = or_else 0 r.size_bytes

-- WHERE source = ? AND source_key = ?
abbrev pub has_key : Text → Text → Row → Bool
has_key source key r = text_eq r.source source && text_eq r.source_key key

abbrev pub has_id : ℕ → Row → Bool
has_id id r = r.id == id

-- The first row that a WHERE clause selects.
unfoldable pub find : (Row → Bool) → List Row → Option Row
find p [] = none
find p (r ∷ rs) = let rest = find p rs in if p r then some r else rest

-- UPDATE items SET ... WHERE ...
unfoldable pub update_where : (Row → Bool) → (Row → Row) → List Row → List Row
update_where p f [] = []
update_where p f (r ∷ rs) = (if p r then f r else r) ∷ update_where p f rs

-- DELETE FROM items WHERE ...
unfoldable pub delete_where : (Row → Bool) → List Row → List Row
delete_where p [] = []
delete_where p (r ∷ rs) = let rest = delete_where p rs in if p r then rest else r ∷ rest

abbrev pub update : (Row → Bool) → (Row → Row) → Table → Table
update p f t = record t { rows = update_where p f t.rows }

-- INSERT ... ON CONFLICT(source, source_key) DO UPDATE SET ...: `fresh` is the inserted row at its
-- new id, and `merge` what the conflicting row becomes.
unfoldable pub upsert : Text → Text → (ℕ → Row) → (Row → Row) → Table → Table
upsert source key fresh merge t = elim (find (has_key source key) t.rows) [
  | none ↦ record t { rows = t.rows ++ fresh t.next_id ∷ []; next_id = suc t.next_id }
  | some r ↦ update (has_key source key) merge t
]

unfoldable pub empty_table : Table
empty_table = record { rows = []; next_id = 1 }
