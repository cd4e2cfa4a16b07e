-- ===== src/Tests/Storing.antt =====
-- Runs of internal/storage/manager.go.
use plex_mirror.Base.{
  ℕ, ◌≡◌, ◌<◌, ◌↔◌, ◌⊎◌, ◌&&◌, refl, true, false, Bool, none, some, Text, codes, arith, text_eq,
}
use plex_mirror.Base.Int.{pos, at_most}
use plex_mirror.Files.{content_at}
use plex_mirror.Items.{Row, Table, update_where, find, has_key}
use plex_mirror.Items.Order.{IsWellFormed}
use plex_mirror.Storage.{
  ReadyItem, over_hard_cap, evict_item, guard_path, used_bytes, record_ready, ok,
}
use plex_mirror.Storage.Eviction.{eviction_target, evict_now}
use plex_mirror.Storage.Candidates.{ready_candidates}
use plex_mirror.Storage.Paths.{path_is_under_root}
use plex_mirror.Storage.Paths.Containment.{IsBelow, path_is_under_root_iff}
use plex_mirror.Storage.Sweeping.{IsAccounted, evict_now-accounting}
use plex_mirror.Storage.Evicting.{IsEvicted, evict_item-IsEvicted}
use plex_mirror.Storage.Guard.{eviction_keeps_outside}
use plex_mirror.Storage.Limits.{IsWithinCaps, IsSane, eviction_target_bounds}
use plex_mirror.Storage.Stopping.{guarded_items, evict_now_stops, evict_now_dry_run}
use plex_mirror.Storage.Recording.{IsRecordable, IsRecorded, record_ready_effect}
use plex_mirror.Tests.Fixtures.{disk, table, table-IsWellFormed, env, policy}

evict_now-accounting_example : IsAccounted disk (evict_now env policy false disk)
evict_now-accounting_example = evict_now-accounting env policy disk table-IsWellFormed

-- The older of the two movies goes, and the usage falls to the other's.
oldest_evicted : used_bytes (evict_now env policy false disk).0.table ≡ 60
unfolding evict_now used_bytes ready_candidates update_where
oldest_evicted = refl

passwd_refused : guard_path env policy (codes "/etc/passwd") ≡ false
unfolding guard_path
passwd_refused = refl

eviction_keeps_outside_example :
    ((dry : Bool)
      → content_at (codes "/etc/passwd") (evict_now env policy dry disk).0.files
        ≡ content_at (codes "/etc/passwd") disk.files)
    × ((id : ℕ)
        → content_at (codes "/etc/passwd") (evict_item env policy id disk).0.files
          ≡ content_at (codes "/etc/passwd") disk.files)
eviction_keeps_outside_example =
    eviction_keeps_outside env policy disk (codes "/etc/passwd") passwd_refused

path_is_under_root_iff_example :
    (path_is_under_root none (codes "/media") (codes "/media/movies/../a.mkv") ≡ some true)
    ↔ IsBelow none (codes "/media") (codes "/media/movies/../a.mkv")
path_is_under_root_iff_example =
    path_is_under_root_iff none (codes "/media") (codes "/media/movies/../a.mkv") refl refl

over_target : eviction_target policy (used_bytes disk.table) ≡ some (pos 90, over_hard_cap)
unfolding eviction_target used_bytes
over_target = refl

no_failure : (evict_now env policy false disk).2 ≡ none
unfolding evict_now ready_candidates
no_failure = refl

evict_now_stops_example :
    (at_most (evict_now env policy false disk).1.used_bytes_after (pos 90) ≡ true)
    ⊎ ((evict_now env policy false disk).1.evicted_items
        ≡ guarded_items env policy over_hard_cap (ready_candidates disk.table))
evict_now_stops_example =
    evict_now_stops env policy false disk (pos 90) over_hard_cap over_target no_failure

evict_now_dry_run_example :
    ((evict_now env policy true disk).0 ≡ disk)
    × ((evict_now env policy false disk).1
        ≡ record ((evict_now env policy true disk).1) { dry_run = false })
    × ((evict_now env policy false disk).2 ≡ none)
    × ((evict_now env policy true disk).2 ≡ none)
evict_now_dry_run_example = evict_now_dry_run env policy disk (λ id. refl)

policy-IsSane : IsSane policy
policy-IsSane = record { ordered = λ h k. omega arith; fits = omega arith }

eviction_target_bounds_example :
    (t : ℕ) × (pos 90 ≡ pos t) × (t < used_bytes disk.table) × IsWithinCaps policy t
eviction_target_bounds_example =
    eviction_target_bounds policy (used_bytes disk.table) (pos 90) over_hard_cap policy-IsSane
      over_target

abbrev landed : ReadyItem
landed = record {
  source = codes "plex";
  source_key = codes "d";
  title = codes "Alien";
  container = codes "mkv";
  local_path = codes "/media/movies/d.mkv";
  size_bytes = 3;
}

record_ready_runs : (t : Table) × (record_ready landed 20 table ≡ ok (4, t))
unfolding record_ready find text_eq update_where
record_ready_runs = (_, refl)

record_ready_effect_example :
    IsRecordable landed
    × ((r : Row) × (find (has_key landed.source landed.source_key) record_ready_runs.0.rows
          ≡ some r)
        × (r.id ≡ 4)
        × IsRecorded landed 20 r)
    × ((s k : Text)
        → (text_eq s landed.source && text_eq k landed.source_key) ≡ false
        → find (has_key s k) record_ready_runs.0.rows ≡ find (has_key s k) table.rows)
    × IsWellFormed record_ready_runs.0
record_ready_effect_example =
    record_ready_effect landed 20 4 table record_ready_runs.0 record_ready_runs.1 table-IsWellFormed

evict_item-IsEvicted_example : IsEvicted env policy 1 disk (evict_item env policy 1 disk)
evict_item-IsEvicted_example = evict_item-IsEvicted env policy 1 disk table-IsWellFormed
