-- ===== src/Storage/Accounting.antt =====
-- What EvictNow and EvictItem of internal/storage/manager.go do to the usage count.
use plex_mirror.Base.{
  ℕ, suc, ◌+◌, ◌-◌, ◌≤◌, ◌≡◌, refl, ◌∙◌, ◌≢◌, inl, inr, Bool, true, false, some, List, [], ◌∷◌,
  ◌++◌, arith, if◌then◌else◌, Bool-cases, All,
}
use plex_mirror.Base.Int.{ℤ, at_most}
use plex_mirror.Items.{Row, Table, is_ready, size_of, has_id, find, update_where}
use plex_mirror.Items.Order.{Ids, IsWellFormed, KeepsKey, update-IsWellFormed, has_id-KeepsKey}
use plex_mirror.Items.Lookup.{find-update_apart}
use plex_mirror.Storage.{
  Policy, Env, Reason, EvictedItem, sum_ready, used_bytes, mark_evicted_row, evict_row, guard_path,
}
use plex_mirror.Storage.Eviction.{Sweep, evict_candidate, evict_loop}
use plex_mirror.Storage.Candidates.{Candidate}

pub mark_evicted_row-KeepsKey : KeepsKey mark_evicted_row
unfolding mark_evicted_row
mark_evicted_row-KeepsKey = record { id = λ r. refl; source = λ r. refl; source_key = λ r. refl }

pub evict_row-IsWellFormed : (id : ℕ) {t : Table} → IsWellFormed t → IsWellFormed (evict_row id t)
unfolding evict_row
evict_row-IsWellFormed id v = update-IsWellFormed (has_id id) mark_evicted_row-KeepsKey v

-- No row above an id is touched by an update at it.
update_above :
    (id lo hi : ℕ) (f : Row → Row) (rs : List Row)
    → suc id ≤ lo
    → Ids lo hi rs
    → update_where (has_id id) f rs ≡ rs
unfolding update_where
update_above id lo hi f [] h v = refl
update_above id lo hi f (r ∷ rs) h v =
    ground (arith, update_above id (suc r.id) hi f rs (omega arith) v.1)

sum-evicted :
    (id lo hi : ℕ) (rs : List Row) (r : Row)
    → Ids lo hi rs
    → find (has_id id) rs ≡ some r
    → sum_ready (update_where (has_id id) mark_evicted_row rs)
        + (if is_ready r.status then size_of r else 0)
      ≡ sum_ready rs
unfolding sum_ready find update_where mark_evicted_row
sum-evicted id lo hi [] r v e = cc
sum-evicted id lo hi (x ∷ rs) r v e = elim (Bool-cases (has_id id x)) [
  | inl h ↦
      rw (h, update_above id (suc x.id) hi mark_evicted_row rs (ground arith) v.1) (ground arith)
  | inr h ↦ rw h (omega (arith, sum-evicted id (suc x.id) hi rs r v.1 (rw h at e)))
]

-- Evicting a row takes its size off the usage, if it was ready.
pub used_bytes-evict_row :
    (id : ℕ) (t : Table) (r : Row)
    → IsWellFormed t
    → find (has_id id) t.rows ≡ some r
    → used_bytes (evict_row id t) + (if is_ready r.status then size_of r else 0) ≡ used_bytes t
unfolding used_bytes evict_row
used_bytes-evict_row id t r v e = sum-evicted id 1 t.next_id t.rows r v.ordered e

-- A candidate that is still a ready row of its size.
abbrev pub IsPending : Table → Candidate → Type 0
IsPending t c =
    (r : Row) × (find (has_id c.id) t.rows ≡ some r)
    × (is_ready r.status ≡ true)
    × (size_of r ≡ c.size)

-- The candidates have distinct ids.
abbrev pub Distinct : List Candidate → Type 0
Distinct [] = Unit {0}
Distinct (c ∷ cs) = All (λ d. d.id ≢ c.id) cs × Distinct cs

pub find-evict_row_other :
    (id id' : ℕ) (t : Table)
    → id' ≢ id
    → find (has_id id') (evict_row id t).rows ≡ find (has_id id') t.rows
unfolding evict_row
find-evict_row_other id id' t ne =
    find-update_apart (has_id id') (has_id id) mark_evicted_row
      (has_id-KeepsKey mark_evicted_row-KeepsKey id') (λ r h. ground arith) t.rows

IsPending-rest :
    (id : ℕ) (t : Table) (cs : List Candidate)
    → All (λ d. d.id ≢ id) cs
    → All (IsPending t) cs
    → All (IsPending (evict_row id t)) cs
IsPending-rest id t [] ne p = tt
IsPending-rest id t (c ∷ cs) ne (q, p) =
    let (r, e, ready, size) = q in
    ((r, rw (find-evict_row_other id c.id t ne.0) e, ready, size), IsPending-rest id t cs ne.1 p)

size_le_used :
    (t : Table) (c : Candidate)
    → IsWellFormed t
    → IsPending t c
    → used_bytes (evict_row c.id t) + c.size ≡ used_bytes t
size_le_used t c v (r, e, h, s) = rw (← s) (rw h at (used_bytes-evict_row c.id t r v e))

unfoldable pub sizes : List EvictedItem → ℕ
sizes [] = 0
sizes (i ∷ is) = i.size_bytes + sizes is

pub sizes-append : (xs ys : List EvictedItem) → sizes (xs ++ ys) ≡ sizes xs + sizes ys
unfolding sizes
sizes-append [] ys = omega arith
sizes-append (x ∷ xs) ys = omega (arith, sizes-append xs ys)

-- What the loop keeps on every path: the running count is the usage of the table.
pub record IsTracked (s : Sweep) : Type 0 where
  pub well_formed : IsWellFormed s.disk.table
  pub running : s.running ≡ used_bytes s.disk.table

-- One eviction of a pending candidate.
abbrev pub evicted_sweep : Env → Bool → Reason → Candidate → Sweep → Sweep
evicted_sweep env dry reason c s = record {
  disk = evict_candidate env dry c s.disk;
  running = s.running - c.size;
  evicted_items =
      s.evicted_items
      ++ record { id = c.id; local_path = c.path; size_bytes = c.size; reason = reason } ∷ [];
}

module _ (env : Env) (policy : Policy) (target : ℤ) (reason : Reason) where
  evicted_sweep-IsTracked :
      (c : Candidate) (s : Sweep)
      → IsTracked s
      → IsPending s.disk.table c
      → IsTracked (evicted_sweep env false reason c s)
  unfolding evict_candidate
  evicted_sweep-IsTracked c s v p = record {
    well_formed = evict_row-IsWellFormed c.id v.well_formed;
    running = omega (arith, v.running, size_le_used s.disk.table c v.well_formed p);
  }

  evicted_sweep-total :
      (c : Candidate) (s : Sweep)
      → IsTracked s
      → IsPending s.disk.table c
      → (evicted_sweep env false reason c s).running
          + sizes (evicted_sweep env false reason c s).evicted_items
        ≡ s.running + sizes s.evicted_items
  unfolding sizes
  evicted_sweep-total c s v p = omega (
    arith,
    v.running,
    size_le_used s.disk.table c v.well_formed p,
    sizes-append s.evicted_items
        (record { id = c.id; local_path = c.path; size_bytes = c.size; reason = reason } ∷ []),
  )

  pub evict_loop-IsTracked :
      (cs : List Candidate) (s : Sweep)
      → IsTracked s
      → All (IsPending s.disk.table) cs
      → Distinct cs
      → IsTracked (evict_loop env policy false target reason cs s).0
        × ((evict_loop env policy false target reason cs s).0.running
              + sizes (evict_loop env policy false target reason cs s).0.evicted_items
            ≡ s.running + sizes s.evicted_items)
  unfolding evict_loop evict_candidate
  evict_loop-IsTracked [] s v p d = (v, refl)
  evict_loop-IsTracked (c ∷ cs) s v p d = elim (Bool-cases (at_most s.running target)) [
    | inl e ↦ rw e (v, refl)
    | inr e ↦ elim (Bool-cases (guard_path env policy c.path)) [
      | inr g ↦ rw (e, g) (evict_loop-IsTracked cs s v p.1 d.1)
      | inl g ↦ elim (Bool-cases (env.update_fails c.id)) [
        | inl f ↦ rw (e, g, f) (record { well_formed = v.well_formed; running = v.running }, refl)
        | inr f ↦
            let next = evicted_sweep env false reason c s in
            let (w, total) =
              evict_loop-IsTracked cs next (evicted_sweep-IsTracked c s v p.0)
                (IsPending-rest c.id s.disk.table cs d.0 p.1) d.1 in
            rw (e, g, f) (w, total ∙ evicted_sweep-total c s v p.0)
      ]
    ]
  ]
