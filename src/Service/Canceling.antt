-- ===== src/Service/Canceling.antt =====
-- What Cancel of internal/service/cancel.go does to the table and the partial files.
use plex_mirror.Base.{
  ℕ, suc, ◌+◌, ◌≤◌, ◌≡◌, refl, ◌≢◌, ◌⊎◌, inl, inr, true, false, none, some, List, [], ◌∷◌, arith,
  if◌then◌else◌, Bool-cases, Option-cases, Text, text_eq,
}
use plex_mirror.Items.{Row, is_ready, size_of, has_id, find, delete_where}
use plex_mirror.Items.Order.{Ids, IsWellFormed, delete-IsWellFormed}
use plex_mirror.Items.Lookup.{find-delete_self, find-delete_other}
use plex_mirror.Files.{Files, content_at, content_at-erase}
use plex_mirror.Layout.{Layout, partial}
use plex_mirror.Storage.{Disk, Env, sum_ready, used_bytes, remove_file}
use plex_mirror.Service.{Result, ok, err, item_by_id, is_cancellable, cancel}

-- No row above an id is deleted with it.
delete_above :
    (id lo hi : ℕ) (rs : List Row) → suc id ≤ lo → Ids lo hi rs → delete_where (has_id id) rs ≡ rs
unfolding delete_where
delete_above id lo hi [] h v = refl
delete_above id lo hi (r ∷ rs) h v =
    ground (arith, delete_above id (suc r.id) hi rs (omega arith) v.1)

sum-deleted :
    (id lo hi : ℕ) (rs : List Row) (r : Row)
    → Ids lo hi rs
    → find (has_id id) rs ≡ some r
    → sum_ready (delete_where (has_id id) rs) + (if is_ready r.status then size_of r else 0)
      ≡ sum_ready rs
unfolding sum_ready find delete_where
sum-deleted id lo hi [] r v e = cc
sum-deleted id lo hi (x ∷ rs) r v e = elim (Bool-cases (has_id id x)) [
  | inl h ↦ rw (h, delete_above id (suc x.id) hi rs (ground arith) v.1) (ground arith)
  | inr h ↦ rw h (omega (arith, sum-deleted id (suc x.id) hi rs r v.1 (rw h at e)))
]

-- A removal leaves the other files.
remove_file-other :
    (env : Env) (p q : Text) (fs : Files)
    → text_eq q p ≡ false
    → content_at p (remove_file env q fs) ≡ content_at p fs
unfolding remove_file
remove_file-other env p q fs ne = elim (Bool-cases (env.refuses q)) [
  | inl h ↦ rw h refl
  | inr h ↦ rw (h, content_at-erase p q fs, ne) refl
]

cancellable-idle : (r : Row) → is_cancellable r.status ≡ true → is_ready r.status ≡ false
cancellable-idle r h = ground arith

sum_deleted_idle :
    (hi id : ℕ) (rs : List Row) (r : Row)
    → Ids 1 hi rs
    → find (has_id id) rs ≡ some r
    → is_cancellable r.status ≡ true
    → sum_ready (delete_where (has_id id) rs) ≡ sum_ready rs
sum_deleted_idle hi id rs r v e h =
    let whole = sum-deleted id 1 hi rs r v e in omega (arith, rw (cancellable-idle r h) at whole)

abbrev pub layout_of : Text → Layout
layout_of media_root = record {
  media_root = media_root;
  movies_dir = [];
  shows_dir = [];
  other_dir = [];
}

-- The outcome of Cancel of the row `id`, against the disk before it.
abbrev pub IsCancelled : (Text → Text) → Text → ℕ → Disk → Disk × Result (Unit {0}) → Type 0
IsCancelled digest media_root id d (e, ok _) =
    (r : Row) × (find (has_id id) d.table.rows ≡ some r)
    × (is_cancellable r.status ≡ true)
    × IsWellFormed e.table
    × (find (has_id id) e.table.rows ≡ none)
    × ((j : ℕ) → j ≢ id → find (has_id j) e.table.rows ≡ find (has_id j) d.table.rows)
    × (used_bytes e.table ≡ used_bytes d.table)
    × ((path : Text)
        → text_eq (partial digest (layout_of media_root) r.source r.source_key) path ≡ false
        → content_at path e.files ≡ content_at path d.files)
IsCancelled digest media_root id d (e, err _) =
    (e ≡ d)
    × ((find (has_id id) d.table.rows ≡ none)
        ⊎ ((r : Row) × (find (has_id id) d.table.rows ≡ some r)
            × (is_cancellable r.status ≡ false)))

-- Cancel succeeds exactly on a row that is queued or failed. It deletes that row and no other,
-- removes no file but the row's partial file, and leaves the usage as it was; where it fails, the
-- table and the files are as they were.
pub cancel_effect :
    (env : Env) (digest : Text → Text) (media_root : Text) (id : ℕ) (d : Disk)
    → IsWellFormed d.table
    → IsCancelled digest media_root id d (cancel env digest media_root id d)
unfolding cancel item_by_id used_bytes
cancel_effect env digest media_root id d v = elim (Option-cases (find (has_id id) d.table.rows)) [
  | inl e ↦ rw (e, cancel, item_by_id) (refl, inl e)
  | inr (r, e) ↦ elim (Bool-cases (is_cancellable r.status)) [
    | inl h ↦
        rw (e, h, cancel, item_by_id)
          (
            r,
            e,
            h,
            delete-IsWellFormed (has_id id) v,
            find-delete_self (has_id id) d.table.rows,
            λ j ne. find-delete_other (has_id j) (has_id id) d.table.rows (λ x q. ground arith),
            sum_deleted_idle d.table.next_id id d.table.rows r v.ordered e h,
            λ path ne. remove_file-other env path _ d.files ne,
          )
    | inr h ↦ rw (e, h, cancel, item_by_id) (refl, inr (r, e, h))
  ]
]
