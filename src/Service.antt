-- ===== src/Service.antt =====
-- internal/service: the runtime's sources, and the operations on single items (cancel.go,
-- mirror.go, the browse calls of service.go).
pub mod Canceling
pub mod Health
pub mod Leaves
pub mod Bulk
pub mod BulkEvict
pub mod Reload
pub mod Queries
pub mod Reconnect
pub mod Settings
use plex_mirror.Base.{
  ℕ, Bool, true, false, not, ◌&&◌, Option, none, some, List, [], ◌∷◌, if◌then◌else◌, or_else, Text,
  text_eq,
}
use plex_mirror.Files.{Files, erase}
use plex_mirror.Items.{
  Row, Table, Status, queued, downloading, ready, evicted, error, has_id, has_key, find,
  delete_where,
}
use plex_mirror.Source.{Item, Fetched, got, fault, SourceError}
use plex_mirror.Layout.{Layout, partial}
use plex_mirror.Storage.{Disk, Env, Policy, EvictedItem, evict_item, remove_file}
use plex_mirror.Storage
use plex_mirror.Download.Queueing.{queue}
use plex_mirror.Download.Queueing

-- A configured source, with the interfaces that it implements.
pub record Backend : Type 0 where
  pub downloadable : Bool
  pub lists_children : Bool
  pub metadata : Text → Fetched Item
  pub children : Text → ℕ → Fetched (List Item)

-- The engine drives the source `engine_source`, where there is an engine.
pub record Runtime : Type 0 where
  pub sources : List (Text × Backend)
  pub engine : Option Layout
  pub engine_source : Text

pub data Failure : Type 0 where
  source_not_found : Failure
  download_unavailable : Failure
  item_not_found : Failure
  children_unavailable : Failure
  unsupported : Failure
  cannot_cancel : Status → Failure
  source_failed : SourceError → Failure
  queue_failed : Queueing.Failure → Failure
  evict_failed : Storage.Failure → Failure

pub data Result {ℓ} (A : Type ℓ) : Type ℓ where
  ok : A → Result A
  err : Failure → Result A

infixl 5 ◌>>=◌
abbrev pub ◌>>=◌ {ℓ κ} : {A : Type ℓ} {B : Type κ} → Result A → (A → Result B) → Result B
ok a >>= f = f a
err e >>= f = err e

abbrev pub fetched {ℓ} : {A : Type ℓ} → Fetched A → Result A
fetched (got a) = ok a
fetched (fault e) = err (source_failed e)

unfoldable pub lookup_source : Text → List (Text × Backend) → Option Backend
lookup_source name [] = none
lookup_source name ((n, b) ∷ rest) =
    let later = lookup_source name rest in if text_eq n name then some b else later

-- runtime.source
unfoldable pub source_of : Runtime → Text → Result Backend
unfolding lookup_source
source_of rt name = elim (lookup_source name rt.sources) [
  | none ↦ err source_not_found
  | some b ↦ ok b
]

-- runtime.downloadableSource
unfoldable pub downloadable_source : Runtime → Text → Result Backend
unfolding source_of
downloadable_source rt name = elim rt.engine [
  | none ↦ err download_unavailable
  | some _ ↦ do b ← source_of rt name; if b.downloadable then ok b else err unsupported
]

-- itemByID
unfoldable pub item_by_id : ℕ → Table → Result Row
item_by_id id t = elim (find (has_id id) t.rows) [ none ↦ err item_not_found | some r ↦ ok r ]

-- QueueDownload: the row of the item after Queue.
unfoldable pub queue_download : Runtime → Text → Text → ℕ → Table → Table × Result Row
unfolding downloadable_source item_by_id
queue_download rt source_name item_id now t =
    elim (downloadable_source rt source_name >>= λ b. fetched (b.metadata item_id)) [
      | err e ↦ (t, err e)
      | ok item ↦ elim rt.engine [
        | none ↦ (t, err download_unavailable)
        | some layout ↦ elim (queue layout rt.engine_source item now t) [
          | Queueing.err e ↦ (t, err (queue_failed e))
          | Queueing.ok id t' ↦ (t', item_by_id id t')
        ]
      ]
    ]

-- The error mapping of Evict: a missing row is reported as the service's own error.
unfoldable pub reported : Disk × Storage.Result EvictedItem → Disk × Result EvictedItem
reported (d, Storage.ok item) = (d, ok item)
reported (d, Storage.err Storage.item_not_found) = (d, err item_not_found)
reported (d, Storage.err e) = (d, err (evict_failed e))

unfoldable pub evict : Env → Policy → ℕ → Disk → Disk × Result EvictedItem
unfolding reported
evict env policy id d = reported (evict_item env policy id d)

-- The switch of Cancel on the status.
abbrev pub is_cancellable : Status → Bool
is_cancellable queued = true
is_cancellable error = true
is_cancellable _ = false

-- Cancel: a partial file that is not removed is no error.
unfoldable pub cancel : Env → (Text → Text) → Text → ℕ → Disk → Disk × Result (Unit {0})
unfolding remove_file item_by_id
cancel env digest media_root id d = elim (item_by_id id d.table) [
  | err e ↦ (d, err e)
  | ok r ↦
      let layout : Layout = record {
        media_root = media_root;
        movies_dir = [];
        shows_dir = [];
        other_dir = [];
      } in
      if is_cancellable r.status
      then (
        record {
          table = record (d.table) { rows = delete_where (has_id id) d.table.rows };
          files = remove_file env (partial digest layout r.source r.source_key) d.files;
        },
        ok tt,
      )
      else (d, err (cannot_cancel r.status))
]
