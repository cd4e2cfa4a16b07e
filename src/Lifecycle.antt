-- ===== src/Lifecycle.antt =====
-- The statements that internal/download, internal/storage and internal/service run on the `items`
-- table, as one step relation: workers, the sweeper and the portal interleave in any order.
pub mod Statements
pub mod Settled
pub mod Reached
pub mod Operations
pub mod Transfers
pub mod Downloads
pub mod Containers
pub mod Mirror
use plex_mirror.Base.{ℕ, ◌≡◌, List, Text}
use plex_mirror.Items.{Table, Message, has_id, delete_where, empty_table}
use plex_mirror.Source.{Item}
use plex_mirror.Layout.{Layout}
use plex_mirror.Storage.{ReadyItem, record_ready, mark_accessed, evict_row}
use plex_mirror.Storage
use plex_mirror.Download.Queueing.{
  queue, mark_downloading, flush_progress, mark_error, reset_stale_downloads, reset_all_stale,
}
use plex_mirror.Download.Queueing

infix 40 ◌⟶◌
pub data ◌⟶◌ : Table → Table → Type 0 where
  queues :
      {t t' : Table} (layout : Layout) (source : Text) (item : Item) (now id : ℕ)
      → queue layout source item now t ≡ Queueing.ok id t'
      → t ⟶ t'
  starts : {t : Table} (id bytes_done now : ℕ) → t ⟶ mark_downloading id bytes_done now t
  flushes : {t : Table} (id bytes_done now : ℕ) → t ⟶ flush_progress id bytes_done now t
  fails : {t : Table} (id : ℕ) (message : Message) → t ⟶ mark_error id message t
  resets : {t : Table} (source : Text) → t ⟶ reset_stale_downloads source t
  resets_all : {t : Table} → t ⟶ reset_all_stale t
  records :
      {t t' : Table} (item : ReadyItem) (now id : ℕ)
      → record_ready item now t ≡ Storage.ok (id, t')
      → t ⟶ t'
  accesses : {t : Table} (id now : ℕ) → t ⟶ mark_accessed id now t
  evicts : {t : Table} (id : ℕ) → t ⟶ evict_row id t
  cancels : {t : Table} (id : ℕ) → t ⟶ record t { rows = delete_where (has_id id) t.rows }

-- The tables that the program can come to from an empty one.
pub data IsReachable : Table → Type 0 where
  first : IsReachable empty_table
  next : {t t' : Table} → IsReachable t → t ⟶ t' → IsReachable t'
