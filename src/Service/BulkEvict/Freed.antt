-- ===== src/Service/BulkEvict/Freed.antt =====
-- The bytes that EvictContainer of internal/service/bulk.go reports as freed.
use plex_mirror.Base.{
  ℕ, ◌+◌, ◌≡◌, refl, sym, ap, ◌∙◌, ◌≢◌, inl, inr, true, false, Option, some, of_some, List, [], ◌∷◌,
  arith, Option-cases, All, Text, text_eq,
}
use plex_mirror.Items.{Row, Table, is_ready, has_id, find}
use plex_mirror.Items.Order.{IsWellFormed}
use plex_mirror.Source.{Item}
use plex_mirror.Storage.{Disk, Env, Policy, used_bytes, evict_item}
use plex_mirror.Storage
use plex_mirror.Storage.Evicting.{IsEvicted, evict_item-IsEvicted}
use plex_mirror.Service.{Runtime, Result, ok, source_of, ◌>>=◌}
use plex_mirror.Service.Bulk.{gather_leaves}
use plex_mirror.Service.BulkEvict.{
  BulkEvictResult, ready_at, tally, evict_leaves, evict_found, evict_container, nothing_evicted,
}
use plex_mirror.Service.BulkEvict.Still.{IsStill, still_at, IsStill-All}

-- What one eviction does to the usage, the constraints and the rows of other ids.
abbrev IsTallied :
    ℕ → Item → BulkEvictResult → Disk → Disk × Storage.Result Storage.EvictedItem → Type 0
IsTallied id leaf res d out =
    IsWellFormed out.0.table
    × ((j : ℕ) → j ≢ id → find (has_id j) out.0.table.rows ≡ find (has_id j) d.table.rows)
    × (used_bytes out.0.table + (tally leaf res out.1).freed_bytes
        ≡ used_bytes d.table + res.freed_bytes)

evicted-IsTallied :
    (env : Env) (policy : Policy) (id : ℕ) (leaf : Item) (res : BulkEvictResult) (d : Disk)
    (r : Row) (out : Disk × Storage.Result Storage.EvictedItem)
    → IsWellFormed d.table
    → find (has_id id) d.table.rows ≡ some r
    → is_ready r.status ≡ true
    → IsEvicted env policy id d out
    → IsTallied id leaf res d out
evicted-IsTallied env policy id leaf res d r (e, Storage.ok item) v found ready
      (x, there, _, w, _, others, used, _, _, _) =
    let same : x ≡ r = of_some (sym there ∙ found) in
    let was : is_ready x.status ≡ true = ap (λ (y : Row). is_ready y.status) same ∙ ready in
    (w, others, omega (arith, rw was at used))
evicted-IsTallied env policy id leaf res d r (e, Storage.err Storage.item_not_found) v found ready
      (same, _) =
    (rw same v, (λ j ne. rw same refl), rw same refl)
evicted-IsTallied env policy id leaf res d r (e, Storage.err Storage.requires_source_and_key) v
      found ready (same, _) =
    (rw same v, (λ j ne. rw same refl), rw same refl)
evicted-IsTallied env policy id leaf res d r (e, Storage.err Storage.requires_local_path) v found
      ready (same, _) =
    (rw same v, (λ j ne. rw same refl), rw same refl)
evicted-IsTallied env policy id leaf res d r (e, Storage.err Storage.lookup_item_id) v found ready
      (same, _) =
    (rw same v, (λ j ne. rw same refl), rw same refl)
evicted-IsTallied env policy id leaf res d r (e, Storage.err Storage.outside_media_root) v found
      ready (same, _) =
    (rw same v, (λ j ne. rw same refl), rw same refl)
evicted-IsTallied env policy id leaf res d r (e, Storage.err (Storage.mark_evicted n)) v found ready
      (same, _) =
    (rw same v, (λ j ne. rw same refl), rw same refl)

-- The leaves have distinct ids.
abbrev pub IsDistinct : List Item → Type 0
IsDistinct [] = Unit {0}
IsDistinct (x ∷ xs) = All (λ (y : Item). text_eq y.id x.id ≡ false) xs × IsDistinct xs

module _ (env : Env) (policy : Policy) (ready_rows : Text → Option (ℕ × ℕ)) where
  IsStill-rest :
      (t t' : Table) (id : ℕ) (r : Row) (key : Text) (leaves : List Item)
      → find (has_id id) t.rows ≡ some r
      → r.source_key ≡ key
      → ((j : ℕ) → j ≢ id → find (has_id j) t'.rows ≡ find (has_id j) t.rows)
      → All (λ (y : Item). text_eq y.id key ≡ false) leaves
      → All (IsStill ready_rows t) leaves
      → All (IsStill ready_rows t') leaves
  IsStill-rest t t' id r key [] e k same ne h = tt
  IsStill-rest t t' id r key (y ∷ ys) e k same ne h = (
    still_at t t' id r key y.id (ready_rows y.id) e k ne.0 same h.0,
    IsStill-rest t t' id r key ys e k same ne.1 h.1,
  )

  freed_loop :
      (leaves : List Item) (d : Disk) (res : BulkEvictResult)
      → IsWellFormed d.table
      → IsDistinct leaves
      → All (IsStill ready_rows d.table) leaves
      → used_bytes (evict_leaves env policy ready_rows leaves d res).0.table
          + (evict_leaves env policy ready_rows leaves d res).1.freed_bytes
        ≡ used_bytes d.table + res.freed_bytes
  unfolding evict_leaves
  freed_loop [] d res v ne h = refl
  freed_loop (leaf ∷ leaves) d res v ne h = elim (Option-cases (ready_rows leaf.id)) [
    | inl e ↦ rw (e, evict_leaves) (freed_loop leaves d _ v ne.1 h.1)
    | inr ((id, size), e) ↦
        let (r, found, key, ready, _) = rw e at h.0 in
        let out = evict_item env policy id d in
        let (w, others, total) =
          evicted-IsTallied env policy id leaf res d r out v found ready
            (evict_item-IsEvicted env policy id d v) in
        rw (e, evict_leaves)
          (freed_loop leaves out.0 (tally leaf res out.1) w ne.1
              (IsStill-rest d.table out.0.table id r leaf.id leaves found key others ne.0 h.1)
            ∙ total)
  ]

-- What was freed, against the disk before.
abbrev pub IsFreed : Disk → Disk × Result BulkEvictResult → Type 0
IsFreed d (e, outcome) =
    (res : BulkEvictResult) × (outcome ≡ ok res)
    × (used_bytes e.table + res.freed_bytes ≡ used_bytes d.table)

found-IsFreed :
    (env : Env) (policy : Policy) (source_name : Text) (d : Disk) (m : Result (List Item × Item))
    (leaves : List Item) (root : Item)
    → IsWellFormed d.table
    → IsDistinct leaves
    → m ≡ ok (leaves, root)
    → IsFreed d (evict_found env policy source_name d m)
unfolding evict_found
found-IsFreed env policy source_name d m leaves root v ne e =
    let ready : Text → Option (ℕ × ℕ) = λ key. ready_at source_name key d.table in
    let loop =
      freed_loop env policy ready leaves d nothing_evicted v ne
        (IsStill-All source_name d.table leaves v) in
    rw e (_, refl, loop ∙ omega arith)

-- On a table that keeps its constraints, where the gathered leaves have distinct ids, EvictContainer
-- gives a result, and the bytes that it reports as freed are exactly what the usage lost, also where
-- some of the evictions fail.
pub evict_container-IsFreed :
    (env : Env) (policy : Policy) (rt : Runtime) (source_name item_id : Text) (d : Disk)
    (leaves : List Item) (root : Item)
    → IsWellFormed d.table
    → IsDistinct leaves
    → (source_of rt source_name >>= λ b. gather_leaves b item_id) ≡ ok (leaves, root)
    → IsFreed d (evict_container env policy rt source_name item_id d)
unfolding evict_container
evict_container-IsFreed env policy rt source_name item_id d leaves root v ne e =
    found-IsFreed env policy source_name d
      (source_of rt source_name >>= λ b. gather_leaves b item_id) leaves root v ne e
