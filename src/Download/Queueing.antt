-- ===== src/Download/Queueing.antt =====
-- Queue and the statements on a row of internal/download/engine.go.
pub mod Requeue
use plex_mirror.Base.{
  ℕ, Bool, true, false, ◌&&◌, Option, none, some, List, if◌then◌else◌, or_else, Text, text_eq,
  is_empty, keep,
}
use plex_mirror.Items.{
  Row, Table, Status, queued, downloading, error, is_error, is_downloading, is_queued, Message,
  has_id, has_key, find, update, upsert,
}
use plex_mirror.Items.Sorting.{sort_rows}
use plex_mirror.Source.{Item}
use plex_mirror.Layout.{Layout, LayoutError, final}
use plex_mirror.Layout

unfoldable pub queued_row : Text → Item → ℕ → ℕ → Row
queued_row source item now id = record {
  id = id;
  source = source;
  source_key = item.id;
  title = item.title;
  container = some item.container;
  size_bytes = some item.size_bytes;
  local_path = none;
  status = queued;
  bytes_done = 0;
  message = none;
  queued_at = now;
  started_at = none;
  completed_at = none;
  last_accessed = none;
  last_progress_at = none;
}

-- ON CONFLICT: a failed row is queued again, and any other keeps its status.
unfoldable pub requeue : Item → ℕ → Row → Row
requeue item now r = record r {
  title = item.title;
  container = some item.container;
  size_bytes = some item.size_bytes;
  status = if is_error r.status then queued else r.status;
  message = if is_error r.status then none else r.message;
  queued_at = if is_error r.status then now else r.queued_at;
}

pub data Failure : Type 0 where
  item_id_required : Failure
  layout_validation : LayoutError → Failure
  lookup_id : Failure

pub data Result : Type 0 where
  ok : ℕ → Table → Result
  err : Failure → Result

unfoldable pub queue : Layout → Text → Item → ℕ → Table → Result
unfolding queued_row requeue upsert
queue layout source item now t =
    if is_empty item.id then err item_id_required else elim (final layout item) [
      | Layout.err e ↦ err (layout_validation e)
      | Layout.ok _ ↦
          let t' = upsert source item.id (queued_row source item now) (requeue item now) t in
          elim (find (has_key source item.id) t'.rows) [
            | none ↦ err lookup_id
            | some r ↦ ok r.id t'
          ]
    ]

unfoldable pub start_row : ℕ → ℕ → Row → Row
start_row bytes_done now r = record r {
  status = downloading;
  started_at = some (or_else now r.started_at);
  bytes_done = bytes_done;
  last_progress_at = some now;
  message = none;
}

unfoldable pub mark_downloading : ℕ → ℕ → ℕ → Table → Table
unfolding start_row
mark_downloading id bytes_done now = update (has_id id) (start_row bytes_done now)

unfoldable pub flush_progress : ℕ → ℕ → ℕ → Table → Table
flush_progress id bytes_done now =
    update (has_id id) (λ r. record r { bytes_done = bytes_done; last_progress_at = some now })

unfoldable pub mark_error : ℕ → Message → Table → Table
mark_error id message =
    update (has_id id) (λ r. record r { status = error; message = some message })

-- ResetStaleDownloads
unfoldable pub reset_stale_downloads : Text → Table → Table
reset_stale_downloads source =
    update (λ r. text_eq r.source source && is_downloading r.status)
      (λ r. record r { status = queued })

-- resetStaleDownloads of internal/service/service.go: of every source
unfoldable pub reset_all_stale : Table → Table
reset_all_stale = update (λ r. is_downloading r.status) (λ r. record r { status = queued })

-- The scan of RunOnce: the queued rows of the source, oldest request first.
unfoldable pub queued_rows : Text → Table → List Row
unfolding sort_rows keep
queued_rows source t =
    sort_rows (λ r. r.queued_at) (keep (λ r. text_eq r.source source && is_queued r.status) t.rows)
