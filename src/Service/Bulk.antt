-- ===== src/Service/Bulk.antt =====
-- internal/service/bulk.go: queueing whole containers, and its preview.
pub mod Counts
use plex_mirror.Base.{
  ℕ, zero, suc, ◌+◌, Bool, true, false, not, ◌&&◌, ◌||◌, Option, none, some, List, [], ◌∷◌, ◌++◌,
  if◌then◌else◌, ltb, or_else, Text, text_eq, is_empty, length,
}
use plex_mirror.Items.{
  Row, Table, Status, queued, downloading, ready, evicted, error, is_ready, has_key, find, size_of,
}
use plex_mirror.Source.{Item, Fetched, got, fault}
use plex_mirror.Layout.{Layout}
use plex_mirror.Storage.{Disk, Env, Policy, evict_item}
use plex_mirror.Storage
use plex_mirror.Download.Queueing.{queue}
use plex_mirror.Download.Queueing
use plex_mirror.Service.Leaves.{has_file, collect_leaves, max_child_depth}
use plex_mirror.Service.{
  Backend, Runtime, Result, ok, err, Failure, children_unavailable, fetched, source_of,
  downloadable_source, ◌>>=◌,
}

pub record BulkQueueResult : Type 0 where
  pub queued : ℕ
  pub skipped : ℕ
  pub failed : ℕ
  pub total_bytes : ℕ
  pub errors : List (Item × Queueing.Failure)

pub record ContainerPreview : Type 0 where
  pub to_queue : ℕ
  pub already_have : ℕ
  pub seasons : List Text
  pub total_bytes : ℕ

-- gatherLeaves: the leaves and the root.
unfoldable pub gather_leaves : Backend → Text → Result (List Item × Item)
unfolding collect_leaves
gather_leaves b id = fetched (b.metadata id) >>= λ root.
    if has_file root
    then ok (root ∷ [], root)
    else if not b.lists_children
    then err children_unavailable
    else fetched (collect_leaves b.children max_child_depth root.id) >>= λ leaves. ok (leaves, root)

-- statusesForSource, read at a key: none where the source has no such row.
abbrev pub status_at : Text → Text → Table → Option Status
status_at source key t = elim (find (has_key source key) t.rows) [
  | none ↦ none
  | some r ↦ some r.status
]

-- The switch of QueueContainer that skips a leaf.
abbrev pub is_skipped : Option Status → Bool
is_skipped (some ready) = true
is_skipped (some downloading) = true
is_skipped (some queued) = true
is_skipped _ = false

-- The switch of PreviewContainer.
abbrev pub is_had : Option Status → Bool
is_had (some ready) = true
is_had (some downloading) = true
is_had _ = false

-- The loop of QueueContainer: `statuses` are those before the loop, `t` the table as it goes.
module _ (layout : Layout) (engine_source : Text) (now : ℕ) (statuses : Text → Option Status) where
  unfoldable pub queue_leaves : List Item → Table → BulkQueueResult → Table × BulkQueueResult
  queue_leaves [] t res = (t, res)
  queue_leaves (leaf ∷ leaves) t res =
      let skip = queue_leaves leaves t (record res { skipped = suc res.skipped }) in
      let fail : Queueing.Failure → Table × BulkQueueResult = λ e.
        queue_leaves leaves t
          (record res { failed = suc res.failed; errors = res.errors ++ (leaf, e) ∷ [] }) in
      let next : Table → Table × BulkQueueResult = λ t'.
        queue_leaves leaves t' (record res {
          queued = suc res.queued;
          total_bytes = res.total_bytes + leaf.size_bytes;
        }) in
      if is_skipped (statuses leaf.id) then skip else elim (queue layout engine_source leaf now t) [
        | Queueing.err e ↦ fail e
        | Queueing.ok id t' ↦ next t'
      ]

abbrev pub no_result : BulkQueueResult
no_result = record { queued = 0; skipped = 0; failed = 0; total_bytes = 0; errors = [] }

-- QueueContainer once the leaves are gathered, or their error.
unfoldable pub queue_found :
    Runtime → Text → ℕ → Table → Result (List Item × Item) → Table × Result BulkQueueResult
unfolding queue_leaves
queue_found rt source_name now t (err e) = (t, err e)
queue_found rt source_name now t (ok (leaves, root)) = elim rt.engine [
  | none ↦ (t, err Failure.download_unavailable)
  | some layout ↦
      let out =
        queue_leaves layout rt.engine_source now (λ key. status_at source_name key t) leaves t
          no_result in
      (out.0, ok out.1)
]

unfoldable pub queue_container : Runtime → Text → Text → ℕ → Table → Table × Result BulkQueueResult
unfolding queue_found gather_leaves downloadable_source
queue_container rt source_name item_id now t =
    queue_found rt source_name now t
      (downloadable_source rt source_name >>= λ b. gather_leaves b item_id)

-- The set of season ids, kept as a list without repetition.
unfoldable pub add_season : Text → List Text → List Text
add_season id seasons = if is_empty id || member seasons then seasons else id ∷ seasons
  where
    member : List Text → Bool
    member [] = false
    member (x ∷ xs) = text_eq x id || member xs

-- One turn of the loop of PreviewContainer.
unfoldable pub preview_leaf : Option Status → Item → ContainerPreview → ContainerPreview
unfolding add_season
preview_leaf status leaf prev =
    let seasons = add_season leaf.parent_id prev.seasons in
    if is_had status
    then record prev { already_have = suc prev.already_have; seasons = seasons }
    else record prev {
      to_queue = suc prev.to_queue;
      total_bytes = prev.total_bytes + leaf.size_bytes;
      seasons = seasons;
    }

unfoldable pub preview_leaves :
    (Text → Option Status) → List Item → ContainerPreview → ContainerPreview
unfolding preview_leaf
preview_leaves statuses [] prev = prev
preview_leaves statuses (leaf ∷ leaves) prev =
    preview_leaves statuses leaves (preview_leaf (statuses leaf.id) leaf prev)

abbrev pub no_preview : ContainerPreview
no_preview = record { to_queue = 0; already_have = 0; seasons = []; total_bytes = 0 }

-- PreviewContainer once the leaves are gathered, or their error.
unfoldable pub preview_found : Text → Table → Result (List Item × Item) → Result ContainerPreview
unfolding preview_leaves
preview_found source_name t (err e) = err e
preview_found source_name t (ok (leaves, root)) =
    ok (preview_leaves (λ key. status_at source_name key t) leaves no_preview)

unfoldable pub preview_container : Runtime → Text → Text → Table → Result ContainerPreview
unfolding preview_found gather_leaves downloadable_source
preview_container rt source_name item_id t =
    preview_found source_name t
      (downloadable_source rt source_name >>= λ b. gather_leaves b item_id)
