-- ===== src/Storage/Recording.antt =====
-- RecordReady and MarkAccessed of internal/storage/manager.go.
use plex_mirror.Base.{
  sym, ap, ◌∙◌, of_some, ℕ, ◌≡◌, refl, inl, inr, false, ◌||◌, ◌&&◌, Option, none, some, arith, Text,
  is_empty, text_eq, Bool-cases,
}
use plex_mirror.Items.{Row, Table, ready, has_key, find, upsert}
use plex_mirror.Items.Lookup.{find-upsert_self}
use plex_mirror.Items.Order.{
  IsWellFormed, KeepsKey, has_key-KeepsKey, IsFresh, IsFresh-has_key, upsert_other_key,
  upsert-IsWellFormed,
}
use plex_mirror.Storage.{ReadyItem, Failure, ok, err, ready_row, mark_ready, record_ready}

mark_ready-KeepsKey : (item : ReadyItem) (now : ℕ) → KeepsKey (mark_ready item now)
unfolding mark_ready
mark_ready-KeepsKey item now = record { id = λ r. refl; source = λ r. refl; source_key = λ r. refl }

ready_row-IsFresh :
    (item : ReadyItem) (now : ℕ) → IsFresh item.source item.source_key (ready_row item now)
unfolding ready_row
ready_row-IsFresh item now = record { id = λ n. refl; source = λ n. refl; source_key = λ n. refl }

-- The item has what RecordReady requires.
abbrev pub IsRecordable : ReadyItem → Type 0
IsRecordable item =
    (is_empty item.source ≡ false)
    × (is_empty item.source_key ≡ false)
    × (is_empty item.local_path ≡ false)

-- The row that a recorded item has: a ready one at its path, whose size, progress and completion
-- are the item's, and with no error.
pub record IsRecorded (item : ReadyItem) (now : ℕ) (r : Row) : Type 0 where
  pub title : r.title ≡ item.title
  pub container : r.container ≡ some item.container
  pub status : r.status ≡ ready
  pub local_path : r.local_path ≡ some item.local_path
  pub size_bytes : r.size_bytes ≡ some item.size_bytes
  pub bytes_done : r.bytes_done ≡ item.size_bytes
  pub completed_at : r.completed_at ≡ some now
  pub message : r.message ≡ none

recorded :
    (item : ReadyItem) (now n : ℕ) (o : Option Row)
    → IsRecorded item now (elim o [ none ↦ ready_row item now n | some r ↦ mark_ready item now r ])
unfolding ready_row mark_ready
recorded item now n none = ground arith
recorded item now n (some r) = ground arith

pub ready_upsert-IsRecorded :
    (item : ReadyItem) (now : ℕ) (t : Table)
    → (r : Row) × (find
          (has_key item.source item.source_key)
          (upsert item.source item.source_key (ready_row item now) (mark_ready item now) t).rows
        ≡ some r)
      × IsRecorded item now r
ready_upsert-IsRecorded item now t = (
  _,
  find-upsert_self item.source item.source_key (ready_row item now) (mark_ready item now) t
      (IsFresh-has_key (ready_row-IsFresh item now) t.next_id)
      (has_key-KeepsKey (mark_ready-KeepsKey item now) item.source item.source_key),
  recorded item now t.next_id (find (has_key item.source item.source_key) t.rows),
)

abbrev pub upserted : ReadyItem → ℕ → Table → Table
upserted item now t =
    upsert item.source item.source_key (ready_row item now) (mark_ready item now) t

err-ne-ok : {x : Failure} {y : ℕ × Table} → ¬ (err x ≡ ok y)
err-ne-ok h = cc

of_ok : {x y : ℕ × Table} → ok x ≡ ok y → x ≡ y
of_ok h = cc

-- A successful RecordReady is its upsert, and returns the id that it then looks up.
pub record_ready_upserts :
    (item : ReadyItem) (now id : ℕ) (t t' : Table)
    → record_ready item now t ≡ ok (id, t')
    → IsRecordable item
      × (upserted item now t ≡ t')
      × ((r : Row)
          → find (has_key item.source item.source_key) (upserted item now t).rows ≡ some r
          → r.id ≡ id)
unfolding record_ready
record_ready_upserts item now id t t' e =
    elim (Bool-cases (is_empty item.source || is_empty item.source_key)) [
      | inl p ↦ absurd (err-ne-ok (rw p at e))
      | inr p ↦ elim (Bool-cases (is_empty item.local_path)) [
        | inl q ↦ absurd (err-ne-ok (rw (p, q) at e))
        | inr q ↦
            let (x, found, _) = ready_upsert-IsRecorded item now t in
            let same = of_ok (rw (found, record_ready) at (rw (p, q) at e)) in
            (
              (ground arith, ground arith, q),
              ap (λ y. y.1) same,
              λ r there. ap (λ (y : Row). y.id) (of_some (sym there ∙ found)) ∙ ap (λ y. y.0) same,
            )
      ]
    ]

pub record_ready_outcome :
    (item : ReadyItem) (now id : ℕ) (t t' : Table)
    → record_ready item now t ≡ ok (id, t')
    → IsRecordable item
      × ((r : Row) × (find (has_key item.source item.source_key) t'.rows ≡ some r)
          × (r.id ≡ id)
          × IsRecorded item now r)
      × ((s k : Text)
          → (text_eq s item.source && text_eq k item.source_key) ≡ false
          → find (has_key s k) t'.rows ≡ find (has_key s k) t.rows)
      × (IsWellFormed t → IsWellFormed t')
record_ready_outcome item now id t t' e =
    let (allowed, same, named) = record_ready_upserts item now id t t' e in
    let (r, found, w) = ready_upsert-IsRecorded item now t in
    (
      allowed,
      (r, rw (← same) found, named r found, w),
      λ s k ne. rw (← same) (
          upsert_other_key item.source item.source_key s k t (ready_row-IsFresh item now)
            (mark_ready-KeepsKey item now) ne),
      λ v. rw (← same) (
          upsert-IsWellFormed item.source item.source_key (ready_row-IsFresh item now)
            (mark_ready-KeepsKey item now) v),
    )

-- Where RecordReady succeeds on a table that keeps its constraints, the item has a source, a key and
-- a path, its row is recorded and has the returned id, the rows under other keys are as they were,
-- and the table still keeps its constraints.
pub record_ready_effect :
    (item : ReadyItem) (now id : ℕ) (t t' : Table)
    → record_ready item now t ≡ ok (id, t')
    → IsWellFormed t
    → IsRecordable item
      × ((r : Row) × (find (has_key item.source item.source_key) t'.rows ≡ some r)
          × (r.id ≡ id)
          × IsRecorded item now r)
      × ((s k : Text)
          → (text_eq s item.source && text_eq k item.source_key) ≡ false
          → find (has_key s k) t'.rows ≡ find (has_key s k) t.rows)
      × IsWellFormed t'
record_ready_effect item now id t t' e v =
    let (allowed, row, others, keeps) = record_ready_outcome item now id t t' e in
    (allowed, row, others, keeps v)
