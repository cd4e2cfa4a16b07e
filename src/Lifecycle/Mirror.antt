-- ===== src/Lifecycle/Mirror.antt =====
-- The operations of the program against the step relation.
use plex_mirror.Base.{ℕ, Bool, Text}
use plex_mirror.Storage.{Policy, Env, Disk, evict_item}
use plex_mirror.Storage.Eviction.{evict_now, sweep}
use plex_mirror.Download.{Engine, Remote, download}
use plex_mirror.Service.{Runtime, cancel}
use plex_mirror.Service.Bulk.{queue_container}
use plex_mirror.Service.BulkEvict.{evict_container}
use plex_mirror.Lifecycle.{IsReachable}
use plex_mirror.Lifecycle.Operations.{
  evict_now-IsReachable, evict_item-IsReachable, sweep-IsReachable, cancel-IsReachable,
}
use plex_mirror.Lifecycle.Downloads.{download-IsReachable}
use plex_mirror.Lifecycle.Containers.{queue_container-IsReachable, evict_container-IsReachable}

-- From a reachable table, each operation of the program ends in a reachable one, whatever its
-- arguments, its errors and the answers from outside are: Download, EvictNow, EvictItem, a tick of
-- the sweeper, Cancel, QueueContainer and EvictContainer run statements of the step relation only.
pub operations-IsReachable :
    (env : Env) (policy : Policy) (engine : Engine) (remote : Remote) (rt : Runtime)
    (digest : Text → Text) (source_name item_id : Text) (now id : ℕ) (dry : Bool) (d : Disk)
    → IsReachable d.table
    → IsReachable (download engine remote now id d).0.table
      × IsReachable (evict_now env policy dry d).0.table
      × IsReachable (evict_item env policy id d).0.table
      × IsReachable (sweep env policy d).table
      × IsReachable (cancel env digest policy.media_root id d).0.table
      × IsReachable (queue_container rt source_name item_id now d.table).0
      × IsReachable (evict_container env policy rt source_name item_id d).0.table
operations-IsReachable env policy engine remote rt digest source_name item_id now id dry d v = (
  download-IsReachable engine remote now id d v,
  evict_now-IsReachable env policy dry d v,
  evict_item-IsReachable env policy id d v,
  sweep-IsReachable env policy d v,
  cancel-IsReachable env digest policy.media_root id d v,
  queue_container-IsReachable rt source_name item_id now d.table v,
  evict_container-IsReachable env policy rt source_name item_id d v,
)
