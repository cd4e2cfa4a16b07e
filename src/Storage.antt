-- ===== src/Storage.antt =====
-- internal/storage/manager.go: the storage manager, with the media root's files. Sizes and caps
-- are byte counts; unixepoch() is the argument `now`.
pub mod Paths
pub mod Candidates
pub mod Eviction
pub mod Accounting
pub mod Limits
pub mod Stopping
pub mod Guard
pub mod Sweeping
pub mod Recording
pub mod Evicting
use plex_mirror.Base.{
  ℕ, suc, ◌+◌, ◌-◌, ◌*◌, Bool, true, false, not, ◌&&◌, ◌||◌, Option, none, some, List, [], ◌∷◌,
  ◌++◌, if◌then◌else◌, ltb, leb, ◌==◌, or_else, Text, is_empty, text_eq, length,
}
use plex_mirror.Base.Int.{ℤ, pos, negsuc, wrap64, quot, at_most}
use plex_mirror.Items.{
  Row, Table, ready, evicted, Status, is_ready, size_of, has_id, has_key, find, update, upsert,
}
use plex_mirror.Files.{Files, erase}
use Paths.{path_is_under_root}
use Candidates.{Candidate, ready_candidates}

pub record Policy : Type 0 where
  pub media_root : Text
  pub hard_cap_bytes : ℕ
  pub soft_cap_bytes : ℕ

-- What lies outside the program: the working directory (none when os.Getwd fails), the files that
-- the system refuses to remove, and the rows whose UPDATE fails.
pub record Env : Type 0 where
  pub cwd : Option Text
  pub refuses : Text → Bool
  pub update_fails : ℕ → Bool

pub record Disk : Type 0 where
  pub table : Table
  pub files : Files

pub data Reason : Type 0 where
  over_hard_cap over_soft_cap manual : Reason

pub record EvictedItem : Type 0 where
  pub id : ℕ
  pub local_path : Text
  pub size_bytes : ℕ
  pub reason : Reason

pub record Report : Type 0 where
  pub scanned_items : ℕ
  pub used_bytes_before : ℕ
  pub used_bytes_after : ℕ
  pub evicted_items : List EvictedItem
  pub dry_run : Bool

pub record ReadyItem : Type 0 where
  pub source : Text
  pub source_key : Text
  pub title : Text
  pub container : Text
  pub local_path : Text
  pub size_bytes : ℕ

pub data Failure : Type 0 where
  requires_source_and_key : Failure
  requires_local_path : Failure
  lookup_item_id : Failure
  item_not_found : Failure
  outside_media_root : Failure
  mark_evicted : ℕ → Failure

pub data Result {ℓ} (A : Type ℓ) : Type ℓ where
  ok : A → Result A
  err : Failure → Result A

-- SELECT COALESCE(SUM(size_bytes), 0) FROM items WHERE status = 'ready'
unfoldable pub sum_ready : List Row → ℕ
sum_ready [] = 0
sum_ready (r ∷ rs) = (if is_ready r.status then size_of r else 0) + sum_ready rs

unfoldable pub used_bytes : Table → ℕ
unfolding sum_ready
used_bytes t = sum_ready t.rows

-- The row that RecordReady inserts.
unfoldable pub ready_row : ReadyItem → ℕ → ℕ → Row
ready_row item now id = record {
  id = id;
  source = item.source;
  source_key = item.source_key;
  title = item.title;
  container = some item.container;
  size_bytes = some item.size_bytes;
  local_path = some item.local_path;
  status = ready;
  bytes_done = item.size_bytes;
  message = none;
  queued_at = now;
  started_at = none;
  completed_at = some now;
  last_accessed = none;
  last_progress_at = none;
}

-- What its ON CONFLICT clause makes of an existing row.
unfoldable pub mark_ready : ReadyItem → ℕ → Row → Row
mark_ready item now r = record r {
  title = item.title;
  container = some item.container;
  size_bytes = some item.size_bytes;
  local_path = some item.local_path;
  status = ready;
  bytes_done = item.size_bytes;
  message = none;
  completed_at = some now;
}

-- The id of the item's row, and the table.
unfoldable pub record_ready : ReadyItem → ℕ → Table → Result (ℕ × Table)
unfolding upsert ready_row mark_ready
record_ready item now t =
    let t' = upsert item.source item.source_key (ready_row item now) (mark_ready item now) t in
    if is_empty item.source || is_empty item.source_key
    then err requires_source_and_key
    else if is_empty item.local_path
    then err requires_local_path
    else elim (find (has_key item.source item.source_key) t'.rows) [
      | none ↦ err lookup_item_id
      | some r ↦ ok (r.id, t')
    ]

abbrev pub mark_accessed : ℕ → ℕ → Table → Table
mark_accessed id now = update (has_id id) (λ r. record r { last_accessed = some now })

-- UPDATE items SET status = 'evicted', local_path = NULL
unfoldable pub mark_evicted_row : Row → Row
mark_evicted_row r = record r { status = evicted; local_path = none }

unfoldable pub evict_row : ℕ → Table → Table
unfolding mark_evicted_row
evict_row id = update (has_id id) mark_evicted_row

-- os.Remove: a file that the system refuses to remove stays, and a missing one is no error.
unfoldable pub remove_file : Env → Text → Files → Files
remove_file env path files = if env.refuses path then files else erase path files

-- Whether the path may be removed: an error of the check refuses it too.
unfoldable pub guard_path : Env → Policy → Text → Bool
unfolding path_is_under_root
guard_path env policy path = or_else false (path_is_under_root env.cwd policy.media_root path)

unfoldable pub evict_item : Env → Policy → ℕ → Disk → Disk × Result EvictedItem
unfolding guard_path remove_file evict_row
evict_item env policy id d = elim (find (has_id id) d.table.rows) [
  | none ↦ (d, err item_not_found)
  | some r ↦
      let path = or_else [] r.local_path in
      if not (is_empty path) && not (guard_path env policy path)
      then (d, err outside_media_root)
      else let files = if is_empty path then d.files else remove_file env path d.files in
        if env.update_fails id then (record d { files = files }, err (mark_evicted id)) else (
          record { table = evict_row id d.table; files = files },
          ok (record { id = id; local_path = path; size_bytes = size_of r; reason = manual }),
        )
]
