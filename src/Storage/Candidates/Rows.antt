-- ===== src/Storage/Candidates/Rows.antt =====
-- The order of EvictNow's candidates, and what they are.
use mathlib.Core.List.{Perm}
use plex_mirror.Base.{
  ℕ, suc, ◌≤◌, ◌≡◌, ◌≢◌, inl, inr, Bool, true, some, List, [], ◌∷◌, arith, Bool-cases, All,
  All-keep, All-map, keep, keep-All-of,
}
use plex_mirror.Items.{Row, Table, is_ready, has_id, find}
use plex_mirror.Items.Order.{Ids, IsWellFormed}
use plex_mirror.Items.Ordering.{
  IsSorted, All-sort, sort-IsSorted, sort-perm, DistinctIds, sort-DistinctIds,
}
use plex_mirror.Storage.Candidates.{completed, ready_rows}

-- The candidates are the ready rows, each once, the oldest completion first and ties by id.
pub ready_rows-IsSorted :
    (t : Table)
    → IsSorted completed (ready_rows t) × Perm (ready_rows t) (keep (λ r. is_ready r.status) t.rows)
unfolding ready_rows
ready_rows-IsSorted t =
    let ready = keep (λ r. is_ready r.status) t.rows in
    (sort-IsSorted completed ready, sort-perm completed ready)

-- A row that its id finds, from `lo` on.
abbrev IsFound : ℕ → List Row → Row → Type 0
IsFound lo rs r = (lo ≤ r.id) × (find (has_id r.id) rs ≡ some r)

IsFound-tail :
    (lo : ℕ) (x : Row) (rs : List Row) (r : Row)
    → lo ≤ x.id
    → IsFound (suc x.id) rs r
    → IsFound lo (x ∷ rs) r
unfolding find
IsFound-tail lo x rs r h (above, e) = (omega arith, ground arith)

rows-IsFound : (lo hi : ℕ) (rs : List Row) → Ids lo hi rs → All (IsFound lo rs) rs
unfolding find
rows-IsFound lo hi [] v = tt
rows-IsFound lo hi (x ∷ rs) v = (
  (v.0, ground arith),
  All-map (IsFound (suc x.id) rs) (IsFound lo (x ∷ rs)) (λ r f. IsFound-tail lo x rs r v.0 f) rs
      (rows-IsFound (suc x.id) hi rs v.1),
)

-- What a ready row of the table is.
abbrev pub IsReadyRow : Table → Row → Type 0
IsReadyRow t r = (find (has_id r.id) t.rows ≡ some r) × (is_ready r.status ≡ true)

pub ready_rows-IsReadyRow : (t : Table) → IsWellFormed t → All (IsReadyRow t) (ready_rows t)
unfolding ready_rows
ready_rows-IsReadyRow t v =
    All-sort completed (IsReadyRow t) (keep (λ r. is_ready r.status) t.rows) (
      keep-All-of (λ r. find (has_id r.id) t.rows ≡ some r) (IsReadyRow t) (λ r. is_ready r.status)
        (λ r f e. (f, e)) t.rows
        (All-map (IsFound 1 t.rows) (λ r. find (has_id r.id) t.rows ≡ some r) (λ r f. f.1) t.rows
          (rows-IsFound 1 t.next_id t.rows v.ordered)))

Ids-above : (lo hi : ℕ) (rs : List Row) → Ids lo hi rs → All (λ r. lo ≤ r.id) rs
Ids-above lo hi [] v = tt
Ids-above lo hi (r ∷ rs) v = (
  v.0,
  All-map (λ s. suc r.id ≤ s.id) (λ s. lo ≤ s.id) (λ s h. omega (arith, v.0)) rs
      (Ids-above (suc r.id) hi rs v.1),
)

Ids-DistinctIds : (lo hi : ℕ) (rs : List Row) → Ids lo hi rs → DistinctIds rs
Ids-DistinctIds lo hi [] v = tt
Ids-DistinctIds lo hi (r ∷ rs) v = (
  All-map (λ s. suc r.id ≤ s.id) (λ s. s.id ≢ r.id) (λ s h. omega arith) rs
      (Ids-above (suc r.id) hi rs v.1),
  Ids-DistinctIds (suc r.id) hi rs v.1,
)

keep-DistinctIds : (p : Row → Bool) (rs : List Row) → DistinctIds rs → DistinctIds (keep p rs)
unfolding keep
keep-DistinctIds p [] h = tt
keep-DistinctIds p (r ∷ rs) h = elim (Bool-cases (p r)) [
  | inl e ↦ rw e (All-keep (λ s. s.id ≢ r.id) p rs h.0, keep-DistinctIds p rs h.1)
  | inr e ↦ rw e (keep-DistinctIds p rs h.1)
]

pub ready_rows-DistinctIds : (t : Table) → IsWellFormed t → DistinctIds (ready_rows t)
unfolding ready_rows
ready_rows-DistinctIds t v = sort-DistinctIds completed (keep (λ r. is_ready r.status) t.rows) (
    keep-DistinctIds (λ r. is_ready r.status) t.rows (Ids-DistinctIds 1 t.next_id t.rows v.ordered))
