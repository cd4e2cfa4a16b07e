-- ===== src/Lifecycle/Statements.antt =====
-- Each statement of internal/download, internal/storage and internal/service keeps the constraints of
-- the `items` table.
use plex_mirror.Base.{
  ℕ, ◌≡◌, refl, ◌⊎◌, inl, inr, ◌&&◌, Bool-cases, Option-cases, Text, is_empty, text_eq,
}
use plex_mirror.Items.{Table, is_downloading, has_key, has_id, find}
use plex_mirror.Items.Order.{
  IsWellFormed, KeepsKey, update-IsWellFormed, upsert-IsWellFormed, delete-IsWellFormed,
}
use plex_mirror.Source.{Item}
use plex_mirror.Layout.{Layout, LayoutError, final}
use plex_mirror.Layout
use plex_mirror.Storage.Accounting.{evict_row-IsWellFormed}
use plex_mirror.Storage.Recording.{record_ready_outcome}
use plex_mirror.Download.Queueing.{
  queue, queued_row, requeue, start_row, mark_downloading, flush_progress, mark_error,
  reset_stale_downloads, reset_all_stale,
}
use plex_mirror.Download.Queueing
use plex_mirror.Download.Queueing.Requeue.{requeue-KeepsKey, queued_row-IsFresh, upserted}
use plex_mirror.Lifecycle.{
  ◌⟶◌, queues, starts, flushes, fails, resets, resets_all, records, accesses, evicts, cancels,
}

of_queued : {id id' : ℕ} {t t' : Table} → Queueing.ok id t ≡ Queueing.ok id' t' → t ≡ t'
of_queued h = cc

refused : {e : Queueing.Failure} {id : ℕ} {t : Table} → ¬ (Queueing.err e ≡ Queueing.ok id t)
refused h = cc

pub Layout-cases :
    (o : Layout.Result Text)
    → ((path : Text) × (o ≡ Layout.ok path)) ⊎ ((x : LayoutError) × (o ≡ Layout.err x))
Layout-cases (Layout.ok path) = inl (path, refl)
Layout-cases (Layout.err x) = inr (x, refl)

-- A successful Queue is its upsert.
pub queue_upserts :
    (layout : Layout) (source : Text) (item : Item) (now id : ℕ) (t t' : Table)
    → queue layout source item now t ≡ Queueing.ok id t'
    → upserted source item now t ≡ t'
unfolding queue
queue_upserts layout source item now id t t' e = elim (Bool-cases (is_empty item.id)) [
  | inl p ↦ absurd (refused (rw p at e))
  | inr p ↦ elim (Layout-cases (final layout item)) [
    | inr (x, q) ↦ absurd (refused (rw (q, queue) at (rw p at e)))
    | inl (path, q) ↦
        elim (Option-cases (find (has_key source item.id) (upserted source item now t).rows)) [
          | inl f ↦ absurd (refused (rw (f, queue) at (rw (q, queue) at (rw p at e))))
          | inr (r, f) ↦ of_queued (rw (f, queue) at (rw (q, queue) at (rw p at e)))
        ]
  ]
]

start_row-KeepsKey : (bytes_done now : ℕ) → KeepsKey (start_row bytes_done now)
unfolding start_row
start_row-KeepsKey bytes_done now = record {
  id = λ r. refl;
  source = λ r. refl;
  source_key = λ r. refl;
}

pub step-IsWellFormed : {t t' : Table} → t ⟶ t' → IsWellFormed t → IsWellFormed t'
unfolding mark_downloading flush_progress mark_error reset_stale_downloads reset_all_stale
step-IsWellFormed {t} {t'} (queues layout source item now id e) v =
    rw (← queue_upserts layout source item now id t t' e) (
      upsert-IsWellFormed source item.id (queued_row-IsFresh source item now)
        (requeue-KeepsKey item now) v)
step-IsWellFormed (starts id bytes_done now) v =
    update-IsWellFormed (has_id id) (start_row-KeepsKey bytes_done now) v
step-IsWellFormed (flushes id bytes_done now) v =
    update-IsWellFormed (has_id id)
      (record { id = λ r. refl; source = λ r. refl; source_key = λ r. refl }) v
step-IsWellFormed (fails id message) v =
    update-IsWellFormed (has_id id)
      (record { id = λ r. refl; source = λ r. refl; source_key = λ r. refl }) v
step-IsWellFormed (resets source) v =
    update-IsWellFormed (λ r. text_eq r.source source && is_downloading r.status)
      (record { id = λ r. refl; source = λ r. refl; source_key = λ r. refl }) v
step-IsWellFormed resets_all v =
    update-IsWellFormed (λ r. is_downloading r.status)
      (record { id = λ r. refl; source = λ r. refl; source_key = λ r. refl }) v
step-IsWellFormed {t} {t'} (records item now id e) v =
    let (_, _, _, keeps) = record_ready_outcome item now id t t' e in keeps v
step-IsWellFormed (accesses id now) v =
    update-IsWellFormed (has_id id)
      (record { id = λ r. refl; source = λ r. refl; source_key = λ r. refl }) v
step-IsWellFormed (evicts id) v = evict_row-IsWellFormed id v
step-IsWellFormed (cancels id) v = delete-IsWellFormed (has_id id) v
