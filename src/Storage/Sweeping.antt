-- ===== src/Storage/Sweeping.antt =====
-- EvictNow of internal/storage/manager.go as a whole: its report against the table it leaves.
use plex_mirror.Base.{
  ℕ, ◌+◌, ◌≡◌, refl, ◌∙◌, ◌≢◌, inl, inr, false, Option, none, some, List, [], ◌∷◌, map, arith,
  Option-cases, All, length,
}
use plex_mirror.Items.{Row, Table}
use plex_mirror.Items.Order.{IsWellFormed}
use plex_mirror.Storage.{Policy, Env, Disk, Report, used_bytes, Failure}
use plex_mirror.Storage.Eviction.{
  Sweep, eviction_target, evict_loop, start_report, finish, evict_now,
}
use plex_mirror.Storage.Candidates.{Candidate, to_candidate, ready_rows, ready_candidates}
use plex_mirror.Items.Ordering.{DistinctIds}
use plex_mirror.Storage.Candidates.Rows.{IsReadyRow, ready_rows-IsReadyRow, ready_rows-DistinctIds}
use plex_mirror.Storage.Accounting.{IsPending, Distinct, IsTracked, sizes, evict_loop-IsTracked}

IsPending-candidates :
    (t : Table) (rs : List Row) → All (IsReadyRow t) rs → All (IsPending t) (map to_candidate rs)
IsPending-candidates t [] h = tt
IsPending-candidates t (r ∷ rs) h = ((r, h.0.0, h.0.1, refl), IsPending-candidates t rs h.1)

distinct_rest :
    (id : ℕ) (rs : List Row)
    → All (λ s. s.id ≢ id) rs
    → All (λ (d : Candidate). d.id ≢ id) (map to_candidate rs)
distinct_rest id [] h = tt
distinct_rest id (r ∷ rs) h = (h.0, distinct_rest id rs h.1)

Distinct-candidates : (rs : List Row) → DistinctIds rs → Distinct (map to_candidate rs)
Distinct-candidates [] h = tt
Distinct-candidates (r ∷ rs) h = (distinct_rest r.id rs h.0, Distinct-candidates rs h.1)

-- The report of a run that may evict, against the usage before it and the table it leaves.
abbrev pub IsAccounted : Disk → Disk × Report × Option Failure → Type 0
IsAccounted d (e, report, failure) =
    IsWellFormed e.table
    × (report.used_bytes_before ≡ used_bytes d.table)
    × (used_bytes e.table + sizes report.evicted_items ≡ used_bytes d.table)
    × (failure ≡ none → report.used_bytes_after ≡ used_bytes e.table)

finish-IsAccounted :
    (d : Disk) (scanned : ℕ) (s : Sweep) (failure : Option ℕ)
    → IsTracked s
    → s.running + sizes s.evicted_items ≡ used_bytes d.table
    → IsAccounted d (finish false (used_bytes d.table) scanned (s, failure))
unfolding finish
finish-IsAccounted d scanned s none v e =
    (v.well_formed, refl, omega (arith, v.running), λ _. v.running)
finish-IsAccounted d scanned s (some id) v e =
    (v.well_formed, refl, omega (arith, v.running), λ h. cc)

-- On a table that keeps its constraints, EvictNow keeps them, and its report is exact: the usage
-- of the table it leaves and the sizes of the evicted items make up the usage before, also where
-- an UPDATE fails half-way, and without a failure used_bytes_after is the usage that is left.
pub evict_now-accounting :
    (env : Env) (policy : Policy) (d : Disk)
    → IsWellFormed d.table
    → IsAccounted d (evict_now env policy false d)
unfolding evict_now sizes start_report ready_candidates
evict_now-accounting env policy d v =
    elim (Option-cases (eviction_target policy (used_bytes d.table))) [
      | inl e ↦ rw (e, evict_now) (v, refl, omega arith, λ _. refl)
      | inr ((target, reason), e) ↦
          let start : Sweep = record {
            disk = d;
            running = used_bytes d.table;
            evicted_items = [];
          } in
          let after = evict_loop env policy false target reason (ready_candidates d.table) start in
          let (tracked, total) =
            evict_loop-IsTracked env policy target reason (ready_candidates d.table) start
              (record { well_formed = v; running = refl })
              (IsPending-candidates d.table (ready_rows d.table) (ready_rows-IsReadyRow d.table v))
              (Distinct-candidates (ready_rows d.table) (ready_rows-DistinctIds d.table v)) in
          rw (e, evict_now)
            (finish-IsAccounted d (length (ready_candidates d.table)) after.0 after.1 tracked
              (total ∙ omega arith))
    ]
