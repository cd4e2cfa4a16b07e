-- ===== src/Lifecycle/Containers.antt =====
-- The bulk operations run statements of the step relation only.
use plex_mirror.Base.{ℕ, ◌≡◌, refl, inl, inr, Option, List, [], ◌∷◌, Bool-cases, Option-cases, Text}
use plex_mirror.Items.{Table, Status}
use plex_mirror.Source.{Item}
use plex_mirror.Layout.{Layout}
use plex_mirror.Storage.{Disk, Env, Policy}
use plex_mirror.Download.Queueing.{queue}
use plex_mirror.Download.Queueing
use plex_mirror.Service.{Runtime, Result, ok, err, downloadable_source, source_of, ◌>>=◌}
use plex_mirror.Service.Bulk.{
  BulkQueueResult, is_skipped, status_at, queue_leaves, queue_found, queue_container, gather_leaves,
  no_result,
}
use plex_mirror.Service.BulkEvict.{
  BulkEvictResult, evict_leaves, evict_found, evict_container, nothing_evicted, ready_at,
}
use plex_mirror.Service.Bulk.Counts.{attempted}
use plex_mirror.Lifecycle.{IsReachable, next, queues}
use plex_mirror.Lifecycle.Operations.{evict_item-IsReachable}

module _ (layout : Layout) (engine_source : Text) (now : ℕ) (statuses : Text → Option Status) where
  queue_leaves-IsReachable :
      (leaves : List Item) (t : Table) (res : BulkQueueResult)
      → IsReachable t
      → IsReachable (queue_leaves layout engine_source now statuses leaves t res).0
  unfolding queue_leaves
  queue_leaves-IsReachable [] t res v = v
  queue_leaves-IsReachable (leaf ∷ leaves) t res v =
      elim (Bool-cases (is_skipped (statuses leaf.id))) [
        | inl h ↦ rw h (queue_leaves-IsReachable leaves t _ v)
        | inr h ↦ rw h (
            attempt-IsReachable leaf leaves t res (queue layout engine_source leaf now t) refl v
              (queue_leaves-IsReachable leaves))
      ]
    where
      attempt-IsReachable :
          (leaf : Item) (leaves : List Item) (t : Table) (res : BulkQueueResult)
          (o : Queueing.Result)
          → queue layout engine_source leaf now t ≡ o
          → IsReachable t
          → ((t' : Table) (out : BulkQueueResult)
              → IsReachable t'
              → IsReachable (queue_leaves layout engine_source now statuses leaves t' out).0)
          → IsReachable (attempted layout engine_source now statuses leaf leaves t res o).0
      attempt-IsReachable leaf leaves t res (Queueing.err e) q v again = again t _ v
      attempt-IsReachable leaf leaves t res (Queueing.ok id t') q v again =
          again t' _ (next v (queues layout engine_source leaf now id q))

queue_found-IsReachable :
    (rt : Runtime) (source_name : Text) (now : ℕ) (t : Table) (m : Result (List Item × Item))
    → IsReachable t
    → IsReachable (queue_found rt source_name now t m).0
unfolding queue_found
queue_found-IsReachable rt source_name now t (err e) v = v
queue_found-IsReachable rt source_name now t (ok (leaves, root)) v = elim (Option-cases rt.engine) [
  | inl u ↦ rw (u, queue_found) v
  | inr (layout, u) ↦
      rw (u, queue_found)
        (queue_leaves-IsReachable layout rt.engine_source now (λ key. status_at source_name key t)
          leaves t no_result v)
]

pub queue_container-IsReachable :
    (rt : Runtime) (source_name item_id : Text) (now : ℕ) (t : Table)
    → IsReachable t
    → IsReachable (queue_container rt source_name item_id now t).0
unfolding queue_container
queue_container-IsReachable rt source_name item_id now t v =
    queue_found-IsReachable rt source_name now t
      (downloadable_source rt source_name >>= λ b. gather_leaves b item_id) v

evict_leaves-IsReachable :
    (env : Env) (policy : Policy) (ready_rows : Text → Option (ℕ × ℕ)) (leaves : List Item)
    (d : Disk) (res : BulkEvictResult)
    → IsReachable d.table
    → IsReachable (evict_leaves env policy ready_rows leaves d res).0.table
unfolding evict_leaves
evict_leaves-IsReachable env policy ready_rows [] d res v = v
evict_leaves-IsReachable env policy ready_rows (leaf ∷ leaves) d res v =
    elim (Option-cases (ready_rows leaf.id)) [
      | inl e ↦ rw (e, evict_leaves) (evict_leaves-IsReachable env policy ready_rows leaves d _ v)
      | inr ((id, size), e) ↦
          rw (e, evict_leaves)
            (evict_leaves-IsReachable env policy ready_rows leaves _ _
              (evict_item-IsReachable env policy id d v))
    ]

evict_found-IsReachable :
    (env : Env) (policy : Policy) (source_name : Text) (d : Disk) (m : Result (List Item × Item))
    → IsReachable d.table
    → IsReachable (evict_found env policy source_name d m).0.table
unfolding evict_found
evict_found-IsReachable env policy source_name d (err e) v = v
evict_found-IsReachable env policy source_name d (ok (leaves, root)) v =
    evict_leaves-IsReachable env policy (λ key. ready_at source_name key d.table) leaves d
      nothing_evicted v

pub evict_container-IsReachable :
    (env : Env) (policy : Policy) (rt : Runtime) (source_name item_id : Text) (d : Disk)
    → IsReachable d.table
    → IsReachable (evict_container env policy rt source_name item_id d).0.table
unfolding evict_container
evict_container-IsReachable env policy rt source_name item_id d v =
    evict_found-IsReachable env policy source_name d
      (source_of rt source_name >>= λ b. gather_leaves b item_id) v
