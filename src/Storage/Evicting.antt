-- ===== src/Storage/Evicting.antt =====
-- EvictItem of internal/storage/manager.go: what it leaves of the row, the usage and the file.
use plex_mirror.Base.{
  ℕ, ◌+◌, ◌≡◌, refl, sym, ◌∙◌, ◌≢◌, ◌⊎◌, inl, inr, Bool, true, false, not, ◌&&◌, ◌||◌, Option, none,
  some, or_else, of_some, [], if◌then◌else◌, Bool-cases, Option-cases, Text, is_empty, text_eq,
  text_eq_refl,
}
use mathlib.Core.Bool.{false≢true}
use mathlib.Core.Option.{none-ne-some}
use plex_mirror.Storage.Paths.{path_is_under_root}
use plex_mirror.Files.{Files, content_at, content_at-erase}
use plex_mirror.Items.{Row, Table, is_ready, has_id, find}
use plex_mirror.Items.Order.{IsWellFormed, has_id-KeepsKey}
use plex_mirror.Items.Lookup.{find-update_where, find_holds}
use plex_mirror.Storage.{
  Policy, Env, Disk, EvictedItem, Failure, item_not_found, outside_media_root, mark_evicted, Result,
  ok, err, used_bytes, mark_evicted_row, evict_row, remove_file, guard_path, evict_item,
}
use plex_mirror.Storage.Accounting.{
  mark_evicted_row-KeepsKey, evict_row-IsWellFormed, used_bytes-evict_row, find-evict_row_other,
}

-- The path is empty, or it is below the media root.
abbrev pub MayRemove : Env → Policy → Text → Type 0
MayRemove env policy path =
    (is_empty path ≡ true) ⊎ (path_is_under_root env.cwd policy.media_root path ≡ some true)

-- The file at the path is gone, unless there is none or the system refuses; no other file changed.
abbrev pub IsRemoved : Env → Text → Files → Files → Type 0
IsRemoved env path fs fs' =
    (content_at path fs' ≡ (if is_empty path || env.refuses path then content_at path fs else none))
    × ((q : Text) → text_eq path q ≡ false → content_at q fs' ≡ content_at q fs)

-- Why an eviction fails, and what it leaves: nothing has changed, but for the file where it is the
-- UPDATE that fails.
abbrev pub IsRefused : Env → Policy → ℕ → Disk → Disk → Failure → Type 0
IsRefused env policy id d e item_not_found = (e ≡ d) × (find (has_id id) d.table.rows ≡ none)
IsRefused env policy id d e outside_media_root =
    (e ≡ d)
    × ((r : Row) × (find (has_id id) d.table.rows ≡ some r)
        × (is_empty (or_else [] r.local_path) ≡ false)
        × (path_is_under_root env.cwd policy.media_root (or_else [] r.local_path) ≢ some true))
IsRefused env policy id d e (mark_evicted j) =
    (j ≡ id)
    × (env.update_fails id ≡ true)
    × ((r : Row) × (find (has_id id) d.table.rows ≡ some r)
        × MayRemove env policy (or_else [] r.local_path)
        × IsRemoved env (or_else [] r.local_path) d.files e.files)
IsRefused env policy id d e _ = ⊥

-- The disk after an eviction of the row `id`, against the one before it.
abbrev pub IsEvicted : Env → Policy → ℕ → Disk → Disk × Result EvictedItem → Type 0
IsEvicted env policy id d (e, ok item) =
    (r : Row) × (find (has_id id) d.table.rows ≡ some r)
    × (item.local_path ≡ or_else [] r.local_path)
    × IsWellFormed e.table
    × (find (has_id id) e.table.rows ≡ some (mark_evicted_row r))
    × ((j : ℕ) → j ≢ id → find (has_id j) e.table.rows ≡ find (has_id j) d.table.rows)
    × (used_bytes e.table + (if is_ready r.status then item.size_bytes else 0) ≡ used_bytes d.table)
    × MayRemove env policy item.local_path
    × (env.update_fails id ≡ false)
    × IsRemoved env item.local_path d.files e.files
IsEvicted env policy id d (e, err x) = (e.table ≡ d.table) × IsRefused env policy id d e x

find-evict_row_self :
    (id : ℕ) (t : Table) (r : Row)
    → find (has_id id) t.rows ≡ some r
    → find (has_id id) (evict_row id t).rows ≡ some (mark_evicted_row r)
unfolding evict_row
find-evict_row_self id t r e =
    find-update_where (has_id id) (has_id id) mark_evicted_row
      (has_id-KeepsKey mark_evicted_row-KeepsKey id) t.rows
    ∙ rw e (rw (find_holds (has_id id) t.rows {r = r} e) refl)

removed :
    (env : Env) (path : Text) (fs : Files)
    → IsRemoved env path fs (if is_empty path then fs else remove_file env path fs)
unfolding remove_file
removed env path fs = elim (Bool-cases (is_empty path)) [
  | inl p ↦ rw p (refl, λ q ne. refl)
  | inr p ↦ elim (Bool-cases (env.refuses path)) [
    | inl k ↦ rw (p, k) (refl, λ q ne. refl)
    | inr k ↦
        rw (p, k)
          (
            content_at-erase path path fs ∙ rw (text_eq_refl path) refl,
            λ q ne. content_at-erase q path fs ∙ rw ne refl,
          )
  ]
]

-- The two outcomes of the guard of EvictItem.
may_remove :
    (nowhere : Bool) (under : Option Bool)
    → (not nowhere && not (or_else false under)) ≡ false
    → (nowhere ≡ true) ⊎ (under ≡ some true)
may_remove true under h = inl refl
may_remove false none h = absurd (false≢true (sym h))
may_remove false (some true) h = inr refl
may_remove false (some false) h = absurd (false≢true (sym h))

may_not_remove :
    (nowhere : Bool) (under : Option Bool)
    → (not nowhere && not (or_else false under)) ≡ true
    → (nowhere ≡ false) × (under ≢ some true)
may_not_remove true under h = absurd (false≢true h)
may_not_remove false none h = (refl, λ k. none-ne-some _ k)
may_not_remove false (some true) h = absurd (false≢true h)
may_not_remove false (some false) h = (refl, λ k. false≢true (of_some k))

-- On a table that keeps its constraints, an eviction that succeeds flips the row of the id to evicted
-- without a path and no other row, takes the reported size off the usage where the row was ready,
-- and removes the row's file unless the system refuses, and no other file; the file has no path or
-- lies below the media root. One that fails changes no row, and it fails only in three ways: there
-- is no such row, or its path is not below the media root, and no file has changed either, or the
-- UPDATE fails, and then that file may be gone and no other is.
pub evict_item-IsEvicted :
    (env : Env) (policy : Policy) (id : ℕ) (d : Disk)
    → IsWellFormed d.table
    → IsEvicted env policy id d (evict_item env policy id d)
unfolding evict_item guard_path
evict_item-IsEvicted env policy id d v = elim (Option-cases (find (has_id id) d.table.rows)) [
  | inl e ↦ rw (e, evict_item) (refl, (refl, e))
  | inr (r, e) ↦
      let path = or_else [] r.local_path in
      elim (Bool-cases (not (is_empty path) && not (guard_path env policy path))) [
        | inl g ↦
            let (named, outside) =
              may_not_remove (is_empty path) (path_is_under_root env.cwd policy.media_root path)
                g in
            rw (e, evict_item) (rw g (refl, (refl, (r, e, named, outside))))
        | inr g ↦
            let may =
              may_remove (is_empty path) (path_is_under_root env.cwd policy.media_root path) g in
            elim (Bool-cases (env.update_fails id)) [
              | inl f ↦
                  rw (e, evict_item)
                    (rw (g, f) (refl, (refl, f, (r, e, may, removed env path d.files))))
              | inr f ↦
                  rw (e, evict_item)
                    (rw (g, f)
                      (
                        r,
                        e,
                        refl,
                        evict_row-IsWellFormed id v,
                        find-evict_row_self id d.table r e,
                        λ j ne. find-evict_row_other id j d.table ne,
                        used_bytes-evict_row id d.table r v e,
                        may,
                        f,
                        removed env path d.files,
                      ))
            ]
      ]
]
