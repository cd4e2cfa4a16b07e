-- ===== src/Download/Completing.antt =====
-- Download of internal/download/engine.go: a run that an honest server lets finish.
use plex_mirror.Base.{
  ℕ, zero, suc, ◌<◌, ◌≡◌, ◌⊎◌, refl, inl, inr, true, false, not, ◌&&◌, Option, none, some, arith,
  if◌then◌else◌, ltb, ◌==◌, Text, is_empty, length, text_eq,
}
use plex_mirror.Files.{Content, content_at}
use plex_mirror.Items.{Row, Table, Transient, has_id, find, is_ready, size_of}
use plex_mirror.Source.{Item}
use plex_mirror.Layout.{final, partial}
use plex_mirror.Layout
use plex_mirror.Storage.{Disk, ReadyItem, record_ready}
use plex_mirror.Storage.Recording.{IsRecordable, upserted, ready_upsert-IsRecorded}
use plex_mirror.Storage
use plex_mirror.Download.Fetch.{done, permanently, transiently, Outcome, Transfer}
use plex_mirror.Download.Queueing.{mark_downloading}
use plex_mirror.Download.Delivered.{
  Delivers, IsRetryable, GoesOn, fetch_once-done, fetch_once-GoesOn,
}
use plex_mirror.Download.Integrity.{
  IsMirrored, Serves, start-IsResumable, retry-IsRetried, download-IsMirrored,
}
use plex_mirror.Download.{
  Engine, Remote, Retried, fetched, stopped, refused, offset_at, retry, item_of, settle, landed,
  ready_item, conclude, download_row, download,
}

-- Of `left` attempts, the next one number `attempt`: one delivers the file, and the ones before it
-- may be tried again; no cancellation comes between.
abbrev pub Succeeds : Remote → ℕ → ℕ → ℕ → Type 0
Succeeds remote expected zero attempt = ⊥
Succeeds remote expected (suc left) attempt =
    (remote.canceled_before attempt ≡ false)
    × (((start : ℕ) → Delivers expected (remote.attempt attempt start))
        ⊎ ((remote.canceled_after attempt ≡ false)
            × ((start : ℕ) → IsRetryable expected (remote.attempt attempt start))
            × Succeeds remote expected left (suc attempt)))

abbrev IsFetched : Transfer × Retried → Type 0
IsFetched (t, result) = result ≡ fetched

module _ (remote : Remote) (id : ℕ) (path : Text) (expected : ℕ) where
  goes_on :
      (attempt : ℕ) (t : Transfer) (outcome : Outcome) (again : Transient → Transfer × Retried)
      → remote.canceled_after attempt ≡ false
      → GoesOn outcome
      → ((e : Transient) → IsFetched (again e))
      → IsFetched (elim outcome [
        | done ↦ (t, fetched)
        | permanently e ↦ (t, refused e)
        | transiently e ↦ if remote.canceled_after attempt then (t, stopped) else again e
      ])
  goes_on attempt t outcome again runs (inl e) h = rw e refl
  goes_on attempt t outcome again runs (inr (x, e)) h = rw e (rw runs (h x))

  retry-IsFetched :
      (left attempt : ℕ) (last : Option Transient) (t : Transfer)
      → Succeeds remote expected left attempt
      → IsFetched (retry remote id path expected left attempt last t)
  unfolding retry
  retry-IsFetched zero attempt last t h = absurd h
  retry-IsFetched (suc left) attempt last t (runs, inl delivers) = rw runs (
      rw
        (fetch_once-done (remote.attempt attempt t.start_at) id path expected t
          (delivers t.start_at))
        refl)
  retry-IsFetched (suc left) attempt last t (runs, inr (goes, retries, later)) = rw runs (
      goes_on attempt _ _ _ goes
        (fetch_once-GoesOn (remote.attempt attempt t.start_at) id path expected t
          (retries t.start_at))
        (λ e. retry-IsFetched left (suc attempt) (some e) _ later))

record_ready-ok :
    (item : ReadyItem) (now : ℕ) (t : Table)
    → IsRecordable item
    → (o : ℕ × Table) × (record_ready item now t ≡ Storage.ok o)
unfolding record_ready
record_ready-ok item now t (source, key, path) =
    let (x, found, _) = ready_upsert-IsRecorded item now t in
    ((x.id, upserted item now t), rw (source, key, path) (rw (found, record_ready) refl))

module _ (engine : Engine) (remote : Remote) (now id : ℕ) (item : Item) (r : Row)
    (partial_path final_path : Text) (file : Content) where
  settle-none :
      (d : Disk)
      → content_at partial_path d.files ≡ some file
      → (ltb 0 (size_of r) && not (length file == size_of r)) ≡ false
      → remote.rename_fails ≡ false
      → is_empty engine.source_name ≡ false
      → is_empty r.source_key ≡ false
      → is_empty final_path ≡ false
      → (settle engine remote now id item r partial_path final_path d).1 ≡ none
  unfolding settle landed ready_item
  settle-none d e size renames source key path =
      let (o, ok) =
        record_ready-ok (ready_item engine item r final_path (length file)) now d.table
          (source, key, path) in
      rw (e, settle) (rw (size, renames) (rw ok refl))

-- What a run needs beside the server: its calls on the directories and the rename succeed, the size
-- of the row is unknown or that of the file, and its source, key and path are
-- not empty.
abbrev pub CanLand : Engine → Remote → Row → Text → Content → Type 0
CanLand engine remote r final_path file =
    (remote.mkdir_partials_fails ≡ false)
    × (remote.mkdir_final_fails ≡ false)
    × (remote.rename_fails ≡ false)
    × ((ltb 0 (size_of r) && not (length file == size_of r)) ≡ false)
    × (is_empty engine.source_name ≡ false)
    × (is_empty r.source_key ≡ false)
    × (is_empty final_path ≡ false)

-- Download finishes, and the file is mirrored, where the server is honest and one of the attempts
-- that it is allowed delivers the whole body, each attempt before it being one that may be tried
-- again: no response, a body that breaks off, or a status of 500 and more. The row is one of the
-- engine's source and not ready, the resolver and the layout accept it, the context is not
-- canceled, the calls on the directories and the rename succeed, the size of the row is unknown or
-- that of the file, no name that is recorded is empty, and what the partial file held before is a beginning of the file.
pub download-finishes :
    (engine : Engine) (remote : Remote) (now id : ℕ) (d : Disk) (r : Row) (file : Content)
    (final_path : Text)
    → find (has_id id) d.table.rows ≡ some r
    → is_ready r.status ≡ false
    → text_eq r.source engine.source_name ≡ true
    → remote.resolves r.source_key ≡ true
    → final engine.layout (item_of remote r) ≡ Layout.ok final_path
    → CanLand engine remote r final_path file
    → Serves engine remote r file d
    → Succeeds remote (size_of r) engine.retry_attempts 0
    → ((download engine remote now id d).1 ≡ none)
      × IsMirrored engine r final_path file (download engine remote now id d).0
unfolding download download_row
download-finishes engine remote now id d r file final_path found waiting same resolves e
      (partials, dirs, renames, size, source, key, lands) (part, honest) succeeds =
    (
      finished,
      download-IsMirrored engine remote now id d r file final_path found waiting e tried
          (part, honest) finished,
    )
  where
    path : Text
    path = partial remote.digest engine.layout engine.source_name r.source_key

    start : Transfer
    start = record {
      disk = record d { table = mark_downloading id (offset_at path d.files 0) now d.table };
      start_at = offset_at path d.files 0;
    }

    after : Transfer × Retried
    after = retry remote id path (size_of r) engine.retry_attempts 0 none start

    some_attempt : (n : ℕ) → Succeeds remote (size_of r) n 0 → 0 < n
    some_attempt zero h = absurd h
    some_attempt (suc n) h = omega arith

    tried : 0 < engine.retry_attempts
    tried = some_attempt engine.retry_attempts succeeds

    whole : content_at path after.0.disk.files ≡ some file
    whole =
        (retry-IsRetried remote id path (size_of r) file honest engine.retry_attempts 0 none start
            (start-IsResumable file path d start.disk.table part)).1
          (retry-IsFetched remote id path (size_of r) engine.retry_attempts 0 none start succeeds)

    concluded :
        (o : Transfer × Retried)
        → o.1 ≡ fetched
        → content_at path o.0.disk.files ≡ some file
        → (conclude engine remote now id (item_of remote r) r path final_path o).1 ≡ none
    concluded (t, result) q k =
        rw (q, conclude)
          (settle-none engine remote now id (item_of remote r) r path final_path file t.disk k size
            renames source key lands)

    finished : (download engine remote now id d).1 ≡ none
    finished =
        rw (found, download)
          (rw (same, waiting, resolves)
            (rw (e, download_row)
              (rw (partials, dirs)
                (concluded after
                  (retry-IsFetched remote id path (size_of r) engine.retry_attempts 0 none start
                    succeeds)
                  whole))))
