-- ===== src/Lifecycle/Settled.antt =====
-- What each status says of its row, whatever the order of the statements.
use plex_mirror.Base.{
  ℕ, ◌≡◌, refl, inl, inr, Bool, true, false, not, ◌&&◌, Option, none, some, is_some, List, [], ◌∷◌,
  arith, Bool-cases, Option-cases, All, All-append, Text, is_empty, text_eq, &&-cases,
}
use plex_mirror.Items.{
  Row, Table, Status, queued, downloading, ready, evicted, error, is_error, is_downloading, has_key,
  has_id, find, update_where, delete_where, upsert,
}
use plex_mirror.Source.{Item}
use plex_mirror.Storage.{ReadyItem, ready_row, mark_ready, evict_row, mark_evicted_row}
use plex_mirror.Download.Queueing.{
  queued_row, requeue, start_row, mark_downloading, flush_progress, mark_error,
  reset_stale_downloads, reset_all_stale,
}
use plex_mirror.Lifecycle.Statements.{queue_upserts}
use plex_mirror.Storage.Recording.{record_ready_upserts}
use plex_mirror.Lifecycle.{
  ◌⟶◌, queues, starts, flushes, fails, resets, resets_all, records, accesses, evicts, cancels,
}

-- A file's path is recorded.
abbrev pub is_stored : Option Text → Bool
is_stored none = false
is_stored (some path) = not (is_empty path)

-- What a status says of the other columns: a queued row has no error, a row that is downloading has
-- no error and a start, a ready row has its path and its completion and no error, an evicted row has
-- no path, and a failed row has its error.
abbrev pub IsSettledAs : Status → Row → Type 0
IsSettledAs queued r = r.message ≡ none
IsSettledAs downloading r = (r.message ≡ none) × (is_some r.started_at ≡ true)
IsSettledAs ready r =
    (is_stored r.local_path ≡ true) × (is_some r.completed_at ≡ true) × (r.message ≡ none)
IsSettledAs evicted r = r.local_path ≡ none
IsSettledAs error r = is_some r.message ≡ true

abbrev pub IsSettled : Row → Type 0
IsSettled r = IsSettledAs r.status r

module _ {κ} (P : Row → Type κ) where
  All-update_where :
      (p : Row → Bool) (f : Row → Row)
      → ((r : Row) → p r ≡ true → P r → P (f r))
      → (rs : List Row) → All P rs
      → All P (update_where p f rs)
  unfolding update_where
  All-update_where p f h [] k = tt
  All-update_where p f h (r ∷ rs) k = elim (Bool-cases (p r)) [
    | inl e ↦ rw e (h r e k.0, All-update_where p f h rs k.1)
    | inr e ↦ rw e (k.0, All-update_where p f h rs k.1)
  ]

  All-delete_where : (p : Row → Bool) (rs : List Row) → All P rs → All P (delete_where p rs)
  unfolding delete_where
  All-delete_where p [] k = tt
  All-delete_where p (r ∷ rs) k = elim (Bool-cases (p r)) [
    | inl e ↦ rw e (All-delete_where p rs k.1)
    | inr e ↦ rw e (k.0, All-delete_where p rs k.1)
  ]

  All-upsert :
      (s k : Text) (fresh : ℕ → Row) (merge : Row → Row) (t : Table)
      → ((n : ℕ) → P (fresh n))
      → ((r : Row) → P r → P (merge r))
      → All P t.rows
      → All P (upsert s k fresh merge t).rows
  unfolding upsert
  All-upsert s k fresh merge t new old h = elim (Option-cases (find (has_key s k) t.rows)) [
    | inl e ↦ rw (e, upsert) (All-append P t.rows (fresh t.next_id ∷ []) h (new t.next_id, tt))
    | inr (r, e) ↦ rw (e, upsert) (All-update_where (has_key s k) merge (λ x q. old x) t.rows h)
  ]

-- The columns that a status speaks of are the same.
same-IsSettledAs :
    (s : Status) (r r' : Row)
    → r'.message ≡ r.message
    → r'.started_at ≡ r.started_at
    → r'.local_path ≡ r.local_path
    → r'.completed_at ≡ r.completed_at
    → IsSettledAs s r
    → IsSettledAs s r'
same-IsSettledAs queued r r' m s l c h = rw m h
same-IsSettledAs downloading r r' m s l c h = rw (m, s) h
same-IsSettledAs ready r r' m s l c h = rw (m, l, c) h
same-IsSettledAs evicted r r' m s l c h = rw l h
same-IsSettledAs error r r' m s l c h = rw m h

requeue-IsSettled : (item : Item) (now : ℕ) (r : Row) → IsSettled r → IsSettled (requeue item now r)
unfolding requeue
requeue-IsSettled item now r h = elim (Bool-cases (is_error r.status)) [
  | inl e ↦ rw e refl
  | inr e ↦ rw e (same-IsSettledAs r.status r _ refl refl refl refl h)
]

reset-IsSettled :
    (r : Row)
    → is_downloading r.status ≡ true
    → IsSettled r
    → IsSettled (record r { status = queued })
reset-IsSettled r e h =
    let (cleared, _) = the_started r.status r (downloading_status r.status e) h in cleared
  where
    downloading_status : (s : Status) → is_downloading s ≡ true → s ≡ downloading
    downloading_status s e = ground arith

    the_started :
        (s : Status) (r : Row)
        → s ≡ downloading
        → IsSettledAs s r
        → (r.message ≡ none) × (is_some r.started_at ≡ true)
    the_started s r e h = rw e at h

start_row-IsSettled : (bytes_done now : ℕ) (r : Row) → IsSettled (start_row bytes_done now r)
unfolding start_row
start_row-IsSettled bytes_done now r = (refl, refl)

ready-IsSettled :
    (item : ReadyItem) (now : ℕ)
    → is_empty item.local_path ≡ false
    → ((n : ℕ) → IsSettled (ready_row item now n)) × ((r : Row) → IsSettled (mark_ready item now r))
unfolding ready_row mark_ready
ready-IsSettled item now e = ((λ n. (rw e refl, refl, refl)), (λ r. (rw e refl, refl, refl)))

pub step-IsSettled : {t t' : Table} → t ⟶ t' → All IsSettled t.rows → All IsSettled t'.rows
unfolding mark_downloading flush_progress mark_error reset_stale_downloads reset_all_stale evict_row
    mark_evicted_row queued_row
step-IsSettled {t} {t'} (queues layout source item now id e) v =
    rw (← queue_upserts layout source item now id t t' e) (
      All-upsert IsSettled source item.id (queued_row source item now) (requeue item now) t
        (λ n. refl) (requeue-IsSettled item now) v)
step-IsSettled {t} (starts id bytes_done now) v =
    All-update_where IsSettled (has_id id) _ (λ r e h. start_row-IsSettled bytes_done now r) t.rows
      v
step-IsSettled {t} (flushes id bytes_done now) v =
    All-update_where IsSettled (has_id id) _
      (λ r e h. same-IsSettledAs r.status r _ refl refl refl refl h) t.rows v
step-IsSettled {t} (fails id message) v =
    All-update_where IsSettled (has_id id) _ (λ r e h. refl) t.rows v
step-IsSettled {t} (resets source) v =
    All-update_where IsSettled (λ r. text_eq r.source source && is_downloading r.status) _
      (λ r e h.
        reset-IsSettled r (&&-cases (text_eq r.source source) (is_downloading r.status) e).1 h)
      t.rows v
step-IsSettled {t} resets_all v =
    All-update_where IsSettled (λ r. is_downloading r.status) _ (λ r e h. reset-IsSettled r e h)
      t.rows v
step-IsSettled {t} {t'} (records item now id e) v =
    let ((_, _, stored), same, _) = record_ready_upserts item now id t t' e in
    let (new, old) = ready-IsSettled item now stored in
    rw (← same) (
      All-upsert IsSettled item.source item.source_key (ready_row item now) (mark_ready item now) t
        new (λ r h. old r) v)
step-IsSettled {t} (accesses id now) v =
    All-update_where IsSettled (has_id id) _
      (λ r e h. same-IsSettledAs r.status r _ refl refl refl refl h) t.rows v
step-IsSettled {t} (evicts id) v = All-update_where IsSettled (has_id id) _ (λ r e h. refl) t.rows v
step-IsSettled {t} (cancels id) v = All-delete_where IsSettled (has_id id) t.rows v
