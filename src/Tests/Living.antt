-- ===== src/Tests/Living.antt =====
-- Runs of the step relation.
use plex_mirror.Base.{◌≡◌, refl, false, [], All, codes}
use plex_mirror.Items.{Table, empty_table, find}
use plex_mirror.Items.Order.{IsWellFormed}
use plex_mirror.Layout.{final}
use plex_mirror.Storage.{Disk, evict_item}
use plex_mirror.Storage.Eviction.{evict_now, sweep}
use plex_mirror.Download.{download}
use plex_mirror.Download.Queueing.{queue}
use plex_mirror.Download.Queueing
use plex_mirror.Service.{cancel}
use plex_mirror.Service.Bulk.{queue_container}
use plex_mirror.Service.BulkEvict.{evict_container}
use plex_mirror.Lifecycle.{IsReachable, first, next, queues}
use plex_mirror.Lifecycle.Reached.{reachable-IsSettled}
use plex_mirror.Lifecycle.Settled.{IsSettled}
use plex_mirror.Lifecycle.Mirror.{operations-IsReachable}
use plex_mirror.Tests.Fixtures.{env, policy, layout, movie_item}
use plex_mirror.Tests.Downloading.{engine, remote}
use plex_mirror.Tests.Serving.{runtime}

queued_first :
    (t : Table) × (queue layout (codes "plex") (movie_item (codes "a")) 10 empty_table
      ≡ Queueing.ok 1 t)
unfolding queue empty_table find final
queued_first = (_, refl)

queued-IsReachable : IsReachable queued_first.0
queued-IsReachable =
    next first (queues layout (codes "plex") (movie_item (codes "a")) 10 1 queued_first.1)

reachable-IsSettled_example : IsWellFormed queued_first.0 × All IsSettled queued_first.0.rows
reachable-IsSettled_example = reachable-IsSettled queued_first.0 queued-IsReachable

abbrev living : Disk
living = record { table = queued_first.0; files = [] }

operations-IsReachable_example :
    IsReachable (download engine remote 40 1 living).0.table
    × IsReachable (evict_now env policy false living).0.table
    × IsReachable (evict_item env policy 1 living).0.table
    × IsReachable (sweep env policy living).table
    × IsReachable (cancel env (λ text. codes "d1") policy.media_root 1 living).0.table
    × IsReachable (queue_container runtime (codes "plex") (codes "s") 40 living.table).0
    × IsReachable (evict_container env policy runtime (codes "plex") (codes "s") living).0.table
operations-IsReachable_example =
    operations-IsReachable env policy engine remote runtime (λ text. codes "d1") (codes "plex")
      (codes "s") 40 1 false living queued-IsReachable
