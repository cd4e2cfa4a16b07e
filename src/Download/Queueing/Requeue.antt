-- ===== src/Download/Queueing/Requeue.antt =====
-- What Queue of internal/download/engine.go does to the item's row.
use mathlib.Core.Bool.{false≢true}
use plex_mirror.Base.{
  ℕ, ◌≡◌, refl, sym, ap, ◌∙◌, inl, inr, true, false, ◌&&◌, Option, none, some, List, arith,
  if◌then◌else◌, Text, is_empty, text_eq, Bool-cases, All, keep, keep-All-of,
}
use plex_mirror.Items.{
  Row, Table, Status, queued, evicted, is_error, is_queued, has_key, find, upsert,
}
use plex_mirror.Items.Lookup.{find-upsert_self}
use plex_mirror.Items.Order.{
  IsWellFormed, KeepsKey, has_key-KeepsKey, IsFresh, IsFresh-has_key, upsert_other_key,
  upsert-IsWellFormed,
}
use plex_mirror.Items.Unique.{Unique-row}
use plex_mirror.Items.Ordering.{All-sort}
use plex_mirror.Source.{Item}
use plex_mirror.Layout.{Layout, final}
use plex_mirror.Layout
use plex_mirror.Download.Queueing.{queued_row, requeue, queue, queued_rows, ok}

pub requeue-KeepsKey : (item : Item) (now : ℕ) → KeepsKey (requeue item now)
unfolding requeue
requeue-KeepsKey item now = record { id = λ r. refl; source = λ r. refl; source_key = λ r. refl }

pub queued_row-IsFresh :
    (source : Text) (item : Item) (now : ℕ) → IsFresh source item.id (queued_row source item now)
unfolding queued_row
queued_row-IsFresh source item now = record {
  id = λ n. refl;
  source = λ n. refl;
  source_key = λ n. refl;
}

-- The status after Queue of an item whose row, if any, is `o`: new and failed items are queued, and
-- any other row keeps its status.
unfoldable pub queued_status : Option Row → Status
queued_status none = queued
queued_status (some r) = if is_error r.status then queued else r.status

abbrev pub upserted : Text → Item → ℕ → Table → Table
upserted source item now t = upsert source item.id (queued_row source item now) (requeue item now) t

-- What Queue leaves under the item's key, given the row that was there.
pub record IsRequeued (item : Item) (now : ℕ) (o : Option Row) (r : Row) : Type 0 where
  pub title : r.title ≡ item.title
  pub size_bytes : r.size_bytes ≡ some item.size_bytes
  pub status : r.status ≡ queued_status o
  pub same_row : (x : Row) → o ≡ some x → (r.id ≡ x.id) × (r.local_path ≡ x.local_path)
  pub cleared : (x : Row) → o ≡ some x → is_error x.status ≡ true → r.message ≡ none

requeued :
    (source : Text) (item : Item) (now n : ℕ) (o : Option Row)
    → IsRequeued item now o
        (elim o [ none ↦ queued_row source item now n | some r ↦ requeue item now r ])
unfolding queued_row requeue queued_status
requeued source item now n none = record {
  title = refl;
  size_bytes = refl;
  status = refl;
  same_row = λ x e. cc;
  cleared = λ x e. cc;
}
requeued source item now n (some r) = record {
  title = refl;
  size_bytes = refl;
  status = refl;
  same_row = λ x e. ground arith;
  cleared = λ x e h. ground arith;
}

-- On a table that keeps its constraints, Queue of an item with an id and a path to land on
-- succeeds. It returns the id of the item's row:
-- a new one in status queued, or the one that was there, which is queued again if it had failed and
-- else keeps its status. The rows under other keys are as they were, and the table still
-- keeps its constraints.
pub queue_effect :
    (layout : Layout) (source : Text) (item : Item) (now : ℕ) (t : Table) (path : Text)
    → is_empty item.id ≡ false
    → final layout item ≡ Layout.ok path
    → IsWellFormed t
    → (r : Row) × (t' : Table) × (queue layout source item now t ≡ ok r.id t')
      × (find (has_key source item.id) t'.rows ≡ some r)
      × IsRequeued item now (find (has_key source item.id) t.rows) r
      × ((s k : Text)
          → (text_eq s source && text_eq k item.id) ≡ false
          → find (has_key s k) t'.rows ≡ find (has_key s k) t.rows)
      × IsWellFormed t'
unfolding queue
queue_effect layout source item now t path named landing v =
    let found =
      find-upsert_self source item.id (queued_row source item now) (requeue item now) t
        (IsFresh-has_key (queued_row-IsFresh source item now) t.next_id)
        (has_key-KeepsKey (requeue-KeepsKey item now) source item.id) in
    (
      _,
      upserted source item now t,
      rw named (rw (landing, queue) (rw (found, queue))),
      found,
      requeued source item now t.next_id (find (has_key source item.id) t.rows),
      λ s k ne.
          upsert_other_key source item.id s k t (queued_row-IsFresh source item now)
            (requeue-KeepsKey item now) ne,
      upsert-IsWellFormed source item.id (queued_row-IsFresh source item now)
          (requeue-KeepsKey item now) v,
    )

-- No row of the scan has the key of a row that is not queued.
scan_misses :
    (source key : Text) (t : Table) (r : Row)
    → IsWellFormed t
    → find (has_key source key) t.rows ≡ some r
    → is_queued r.status ≡ false
    → All (λ x. has_key source key x ≡ false) (queued_rows source t)
unfolding queued_rows
scan_misses source key t r v found idle =
    All-sort (λ x. x.queued_at) (λ x. has_key source key x ≡ false)
      (keep (λ x. text_eq x.source source && is_queued x.status) t.rows)
      (passed t.rows (Unique-row source key t.rows r v.unique found))
  where
    apart :
        (x : Row)
        → (has_key source key x ≡ true → x ≡ r)
        → (text_eq x.source source && is_queued x.status) ≡ true
        → has_key source key x ≡ false
    apart x only q = elim (Bool-cases (has_key source key x)) [
      | inl h ↦
          let same : is_queued x.status ≡ is_queued r.status =
            ap (λ (y : Row). is_queued y.status) (only h) in
          absurd (false≢true (sym idle ∙ sym same ∙ ground arith))
      | inr h ↦ h
    ]

    passed :
        (rs : List Row)
        → All (λ x. has_key source key x ≡ true → x ≡ r) rs
        → All
            (λ x. has_key source key x ≡ false)
            (keep (λ x. text_eq x.source source && is_queued x.status) rs)
    passed rs only =
        keep-All-of (λ x. has_key source key x ≡ true → x ≡ r) (λ x. has_key source key x ≡ false)
          (λ x. text_eq x.source source && is_queued x.status) apart rs only

-- An evicted item stays evicted: Queue succeeds and returns its id, and the scan for queued rows
-- does not list it, so no worker downloads it again.
pub queue_leaves_evicted :
    (layout : Layout) (source : Text) (item : Item) (now : ℕ) (t : Table) (path : Text) (x : Row)
    → is_empty item.id ≡ false
    → final layout item ≡ Layout.ok path
    → IsWellFormed t
    → find (has_key source item.id) t.rows ≡ some x
    → x.status ≡ evicted
    → (r : Row) × (t' : Table) × (queue layout source item now t ≡ ok r.id t')
      × (find (has_key source item.id) t'.rows ≡ some r)
      × (r.status ≡ evicted)
      × All (λ q. has_key source item.id q ≡ false) (queued_rows source t')
unfolding queued_status
queue_leaves_evicted layout source item now t path x named landing v there gone =
    let (r, t', queues, found, w, _, keeps) =
      queue_effect layout source item now t path named landing v in
    let status : r.status ≡ evicted = w.status ∙ rw there (rw gone) in
    (r, t', queues, found, status, scan_misses source item.id t' r keeps found (rw status))
