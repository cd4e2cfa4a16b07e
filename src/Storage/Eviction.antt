-- ===== src/Storage/Eviction.antt =====
-- EvictNow and the sweeper of internal/storage/manager.go.
use plex_mirror.Base.{
  ℕ, ◌-◌, ◌*◌, Bool, false, not, ◌&&◌, Option, none, some, List, [], ◌∷◌, ◌++◌, if◌then◌else◌, ltb,
  ◌==◌, length,
}
use plex_mirror.Base.Int.{ℤ, pos, wrap64, quot, at_most}
use plex_mirror.Storage.Candidates.{Candidate, ready_candidates}
use plex_mirror.Storage.{
  Policy, Env, Disk, Reason, over_hard_cap, over_soft_cap, EvictedItem, Report, Failure,
  mark_evicted, used_bytes, evict_row, remove_file, guard_path,
}

-- The byte target, the reason and whether to evict. `hard * 9` wraps as an int64 does.
unfoldable pub eviction_target : Policy → ℕ → Option (ℤ × Reason)
unfolding wrap64 quot
eviction_target policy used =
    if ltb 0 policy.hard_cap_bytes && ltb policy.hard_cap_bytes used
    then some (
      (if policy.soft_cap_bytes == 0
          then quot (wrap64 (policy.hard_cap_bytes * 9)) 10
          else pos policy.soft_cap_bytes),
      over_hard_cap,
    )
    else if ltb 0 policy.soft_cap_bytes && ltb policy.soft_cap_bytes used
    then some (pos policy.soft_cap_bytes, over_soft_cap)
    else none

-- The state of the loop of EvictNow.
pub record Sweep : Type 0 where
  pub disk : Disk
  pub running : ℕ
  pub evicted_items : List EvictedItem

-- One candidate past the guard: its file is removed and its row flipped, unless the run is dry.
unfoldable pub evict_candidate : Env → Bool → Candidate → Disk → Disk
unfolding remove_file evict_row
evict_candidate env dry c d =
    if dry
    then d
    else record { table = evict_row c.id d.table; files = remove_file env c.path d.files }

module _ (env : Env) (policy : Policy) (dry : Bool) (target : ℤ) (reason : Reason) where
  -- `some id` is the row whose UPDATE failed.
  unfoldable pub evict_loop : List Candidate → Sweep → Sweep × Option ℕ
  unfolding at_most guard_path evict_candidate
  evict_loop [] s = (s, none)
  evict_loop (c ∷ cs) s =
      let skipped = evict_loop cs s in
      let failed = record s {
        disk = record (s.disk) { files = remove_file env c.path s.disk.files };
      } in
      let continued = evict_loop cs (record {
        disk = evict_candidate env dry c s.disk;
        running = s.running - c.size;
        evicted_items =
            s.evicted_items
            ++ record { id = c.id; local_path = c.path; size_bytes = c.size; reason = reason } ∷ [];
      }) in
      if at_most s.running target
      then (s, none)
      else if not (guard_path env policy c.path)
      then skipped
      else if not dry && env.update_fails c.id
      then (failed, some c.id)
      else continued

unfoldable pub start_report : Bool → ℕ → Report
start_report dry used = record {
  scanned_items = 0;
  used_bytes_before = used;
  used_bytes_after = used;
  evicted_items = [];
  dry_run = dry;
}

-- On a failed UPDATE the report comes back as far as it was filled in, with the error.
unfoldable pub finish : Bool → ℕ → ℕ → Sweep × Option ℕ → Disk × Report × Option Failure
finish dry used scanned (s, none) = (
  s.disk,
  record {
    scanned_items = scanned;
    used_bytes_before = used;
    used_bytes_after = s.running;
    evicted_items = s.evicted_items;
    dry_run = dry;
  },
  none,
)
finish dry used scanned (s, some id) = (
  s.disk,
  record {
    scanned_items = scanned;
    used_bytes_before = used;
    used_bytes_after = used;
    evicted_items = s.evicted_items;
    dry_run = dry;
  },
  some (mark_evicted id),
)

unfoldable pub evict_now : Env → Policy → Bool → Disk → Disk × Report × Option Failure
unfolding eviction_target evict_loop finish start_report used_bytes
evict_now env policy dry d =
    let used = used_bytes d.table in
    elim (eviction_target policy used) [
      | none ↦ (d, start_report dry used, none)
      | some (target, reason) ↦
          let candidates = ready_candidates d.table in
          finish dry used (length candidates) (
            evict_loop env policy dry target reason candidates
              (record { disk = d; running = used; evicted_items = [] }))
    ]

-- One tick of RunSweeper.
unfoldable pub sweep : Env → Policy → Disk → Disk
unfolding evict_now
sweep env policy d = elim (eviction_target policy (used_bytes d.table)) [
  | none ↦ d
  | some _ ↦ (evict_now env policy false d).0
]
