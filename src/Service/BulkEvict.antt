-- ===== src/Service/BulkEvict.antt =====
-- internal/service/bulk.go: evicting whole containers, and its preview.
pub mod Still
pub mod Freed
use plex_mirror.Base.{
  ℕ, zero, suc, ◌+◌, Bool, true, false, not, ◌&&◌, ◌||◌, Option, none, some, List, [], ◌∷◌, ◌++◌,
  if◌then◌else◌, ltb, or_else, Text, text_eq, is_empty, length,
}
use plex_mirror.Items.{
  Row, Table, Status, queued, downloading, ready, evicted, error, is_ready, has_key, find, size_of,
}
use plex_mirror.Source.{Item, Fetched, got, fault}
use plex_mirror.Layout.{Layout}
use plex_mirror.Storage.{Disk, Env, Policy, evict_item}
use plex_mirror.Storage
use plex_mirror.Download.Queueing.{queue}
use plex_mirror.Download.Queueing
use plex_mirror.Service.Leaves.{has_file, collect_leaves, max_child_depth}
use plex_mirror.Service.{
  Backend, Runtime, Result, ok, err, Failure, children_unavailable, fetched, source_of,
  downloadable_source, ◌>>=◌,
}
use plex_mirror.Service.Bulk.{add_season, gather_leaves}

pub record BulkEvictResult : Type 0 where
  pub evicted : ℕ
  pub skipped : ℕ
  pub failed : ℕ
  pub freed_bytes : ℕ
  pub errors : List (Item × Storage.Failure)

pub record EvictPreview : Type 0 where
  pub to_evict : ℕ
  pub freed_bytes : ℕ
  pub seasons : List Text

-- readyRowsForSource, read at a key: the id and the size of the ready row.
abbrev pub ready_at : Text → Text → Table → Option (ℕ × ℕ)
ready_at source key t = elim (find (has_key source key) t.rows) [
  | none ↦ none
  | some r ↦ if is_ready r.status then some (r.id, size_of r) else none
]

-- What one EvictItem adds to the result.
abbrev pub tally : Item → BulkEvictResult → Storage.Result Storage.EvictedItem → BulkEvictResult
tally leaf res (Storage.ok item) = record res {
  evicted = suc res.evicted;
  freed_bytes = res.freed_bytes + item.size_bytes;
}
tally leaf res (Storage.err Storage.item_not_found) = record res { skipped = suc res.skipped }
tally leaf res (Storage.err e) = record res {
  failed = suc res.failed;
  errors = res.errors ++ (leaf, e) ∷ [];
}

module _ (env : Env) (policy : Policy) (ready_rows : Text → Option (ℕ × ℕ)) where
  -- The loop of EvictContainer.
  unfoldable pub evict_leaves : List Item → Disk → BulkEvictResult → Disk × BulkEvictResult
  evict_leaves [] d res = (d, res)
  evict_leaves (leaf ∷ leaves) d res =
      let skip = evict_leaves leaves d (record res { skipped = suc res.skipped }) in
      let evict_one : ℕ → Disk × BulkEvictResult = λ id.
        let (d', outcome) = evict_item env policy id d in
        evict_leaves leaves d' (tally leaf res outcome) in
      elim (ready_rows leaf.id) [ none ↦ skip | some (id, size) ↦ evict_one id ]

abbrev pub nothing_evicted : BulkEvictResult
nothing_evicted = record { evicted = 0; skipped = 0; failed = 0; freed_bytes = 0; errors = [] }

-- EvictContainer once the leaves are gathered, or their error.
unfoldable pub evict_found :
    Env → Policy → Text → Disk → Result (List Item × Item) → Disk × Result BulkEvictResult
unfolding evict_leaves
evict_found env policy source_name d (err e) = (d, err e)
evict_found env policy source_name d (ok (leaves, root)) =
    let out =
      evict_leaves env policy (λ key. ready_at source_name key d.table) leaves d nothing_evicted in
    (out.0, ok out.1)

unfoldable pub evict_container :
    Env → Policy → Runtime → Text → Text → Disk → Disk × Result BulkEvictResult
unfolding evict_found gather_leaves source_of
evict_container env policy rt source_name item_id d =
    evict_found env policy source_name d (source_of rt source_name >>= λ b. gather_leaves b item_id)

unfoldable pub preview_evict_leaves :
    (Text → Option (ℕ × ℕ)) → List Item → EvictPreview → EvictPreview
unfolding add_season
preview_evict_leaves ready_rows [] prev = prev
preview_evict_leaves ready_rows (leaf ∷ leaves) prev =
    preview_evict_leaves ready_rows leaves (elim (ready_rows leaf.id) [
      | none ↦ prev
      | some (id, size) ↦ record {
        to_evict = suc prev.to_evict;
        freed_bytes = prev.freed_bytes + size;
        seasons = add_season leaf.parent_id prev.seasons;
      }
    ])

unfoldable pub preview_evict : Runtime → Text → Text → Table → Result EvictPreview
unfolding preview_evict_leaves gather_leaves source_of
preview_evict rt source_name item_id t = do
  b ← source_of rt source_name
  found ← gather_leaves b item_id
  ok (
      preview_evict_leaves (λ key. ready_at source_name key t) found.0
        (record { to_evict = 0; freed_bytes = 0; seasons = [] }))
