-- ===== src/Download/Integrity.antt =====
-- Download of internal/download/engine.go: what a successful run leaves.
use mathlib.Core.Option.{none-ne-some}
use plex_mirror.Base.{
  ℕ, zero, suc, ◌<◌, ◌≡◌, refl, sym, ◌∙◌, ◌≢◌, inl, inr, false, not, ◌&&◌, Option, none, some, [],
  ◌++◌, arith, if◌then◌else◌, ltb, ◌==◌, or_else, Text, length, Bool-cases, text_eq, text_eq_refl,
}
use plex_mirror.Files.{Content, content_at, put, erase, content_at-put}
use plex_mirror.Items.{Row, Table, Transient, has_id, find, is_ready, ready, has_key, size_of}
use plex_mirror.Source.{Item}
use plex_mirror.Layout.{final, partial}
use plex_mirror.Layout
use plex_mirror.Storage.{Disk, record_ready}
use plex_mirror.Storage.Recording.{record_ready_outcome}
use plex_mirror.Storage
use plex_mirror.Download.Fetch.{Outcome, done, permanently, transiently, Transfer, fetch_once}
use plex_mirror.Download.Queueing.{mark_downloading}
use plex_mirror.Download.Honest.{IsHonest, held, IsPart, IsResumable, IsSound}
use plex_mirror.Download.Resume.{fetch_once-IsSound}
use plex_mirror.Download.{
  Engine, Remote, Retried, fetched, stopped, refused, spent, offset_at, retry, item_of, settle,
  landed, ready_item, conclude, download_row, download,
}

-- The re-stat makes a sound transfer resumable.
restat-IsResumable :
    (file : Content) (path : Text) (t : Transfer) (outcome : Outcome)
    → IsSound file path (t, outcome)
    → IsResumable file path (record t { start_at = offset_at path t.disk.files t.start_at })
restat-IsResumable file path t outcome (part, missing, whole) =
    (part, size (content_at path t.disk.files) refl)
  where
    size :
        (c : Option Content)
        → content_at path t.disk.files ≡ c
        → offset_at path t.disk.files t.start_at ≡ length (held path t)
    size none e = rw (e, offset_at) (missing e)
    size (some c) e = rw (e, offset_at)

module _ (remote : Remote) (id : ℕ) (path : Text) (expected : ℕ) (file : Content)
    (honest : (k start : ℕ) → IsHonest file start (remote.attempt k start)) where
  -- The loop ends with the whole file, or with a beginning of it and an error.
  abbrev pub IsRetried : ℕ → Option Transient → Transfer × Retried → Type 0
  IsRetried left last (t, result) =
      IsPart file path t
      × (result ≡ fetched → content_at path t.disk.files ≡ some file)
      × (result ≡ spent none → (left ≡ 0) × (last ≡ none))

  again-IsRetried :
      (left attempt : ℕ) (last : Option Transient) (t' : Transfer) (outcome : Outcome)
      (again : Transient → Transfer × Retried)
      → IsSound file path (t', outcome)
      → ((e : Transient) → outcome ≡ transiently e → IsRetried left (some e) (again e))
      → IsRetried (suc left) last (elim outcome [
        | done ↦ (t', fetched)
        | permanently e ↦ (t', refused e)
        | transiently e ↦ if remote.canceled_after attempt then (t', stopped) else again e
      ])
  again-IsRetried left attempt last t' done again (part, missing, whole) h =
      (part, λ _. whole refl, λ q. cc)
  again-IsRetried left attempt last t' (permanently e) again (part, missing, whole) h =
      (part, λ q. cc, λ q. cc)
  again-IsRetried left attempt last t' (transiently e) again (part, missing, whole) h =
      elim (Bool-cases (remote.canceled_after attempt)) [
        | inl c ↦ rw c (part, λ q. cc, λ q. cc)
        | inr c ↦
            let (p, f, s) = h e refl in rw c (p, f, λ q. absurd (none-ne-some _ (sym (s q).1)))
      ]

  pub retry-IsRetried :
      (left attempt : ℕ) (last : Option Transient) (t : Transfer)
      → IsResumable file path t
      → IsRetried left last (retry remote id path expected left attempt last t)
  unfolding retry
  retry-IsRetried zero attempt last t v = (v.0, λ q. cc, λ q. (refl, cc))
  retry-IsRetried (suc left) attempt last t v = elim (Bool-cases (remote.canceled_before attempt)) [
    | inl c ↦ rw c (v.0, λ q. cc, λ q. cc)
    | inr c ↦
        let after = fetch_once (remote.attempt attempt t.start_at) id path expected t in
        let again : Transient → Transfer × Retried = λ e.
          retry remote id path expected left (suc attempt) (some e)
            (record (after.0) { start_at = offset_at path after.0.disk.files after.0.start_at }) in
        let sound =
          fetch_once-IsSound file (remote.attempt attempt t.start_at) id path expected t
            (honest attempt t.start_at) v in
        rw c (
          again-IsRetried left attempt last after.0 after.1 again sound (λ e q.
            retry-IsRetried left (suc attempt) (some e) _
              (restat-IsResumable file path after.0 after.1 sound)))
  ]

-- A mirrored file: the whole of it at its final path, and a ready row that says so.
abbrev pub IsMirrored : Engine → Row → Text → Content → Disk → Type 0
IsMirrored engine r final_path file d =
    (content_at final_path d.files ≡ some file)
    × ((x : Row) × (find (has_key engine.source_name r.source_key) d.table.rows ≡ some x)
        × (x.status ≡ ready)
        × (x.local_path ≡ some final_path)
        × (x.size_bytes ≡ some (length file)))

module _ (engine : Engine) (remote : Remote) (now id : ℕ) (item : Item) (r : Row)
    (partial_path final_path : Text) (file : Content) where
  landed-IsMirrored :
      (d : Disk) (o : Storage.Result (ℕ × Table))
      → record_ready (ready_item engine item r final_path (length file)) now d.table ≡ o
      → (landed (record d { files = put final_path file (erase partial_path d.files) }) o).1 ≡ none
      → IsMirrored engine r final_path file
          (landed (record d { files = put final_path file (erase partial_path d.files) }) o).0
  unfolding landed ready_item
  landed-IsMirrored d (Storage.err x) e h = absurd (none-ne-some _ (sym h))
  landed-IsMirrored d (Storage.ok (row_id, t)) e h =
      let (_, (x, found, _, w), _, _) =
        record_ready_outcome (ready_item engine item r final_path (length file)) now row_id d.table
          t e in
      (
        content_at-put final_path final_path file (erase partial_path d.files)
            ∙ rw (text_eq_refl final_path),
        (x, found, w.status, w.local_path, w.size_bytes),
      )

  settle-IsMirrored :
      (d : Disk)
      → content_at partial_path d.files ≡ some file
      → (settle engine remote now id item r partial_path final_path d).1 ≡ none
      → IsMirrored engine r final_path file
          (settle engine remote now id item r partial_path final_path d).0
  unfolding settle
  settle-IsMirrored d e h =
      elim (Bool-cases (ltb 0 (size_of r) && not (length file == size_of r))) [
        | inl p ↦ absurd (none-ne-some _ (sym (rw p at (rw (e, settle) at h))))
        | inr p ↦ elim (Bool-cases remote.rename_fails) [
          | inl q ↦ absurd (none-ne-some _ (sym (rw (p, q) at (rw (e, settle) at h))))
          | inr q ↦
              rw (e, settle)
                (rw (p, q) (landed-IsMirrored d _ refl (rw (p, q) at (rw (e, settle) at h))))
        ]
      ]

  conclude-IsMirrored :
      (t : Transfer) (result : Retried)
      → (result ≡ fetched → content_at partial_path t.disk.files ≡ some file)
      → (result ≢ spent none)
      → (conclude engine remote now id item r partial_path final_path (t, result)).1 ≡ none
      → IsMirrored engine r final_path file
          (conclude engine remote now id item r partial_path final_path (t, result)).0
  unfolding conclude
  conclude-IsMirrored t fetched whole tried h = settle-IsMirrored t.disk (whole refl) h
  conclude-IsMirrored t stopped whole tried h = absurd (none-ne-some _ (sym h))
  conclude-IsMirrored t (refused e) whole tried h = absurd (none-ne-some _ (sym h))
  conclude-IsMirrored t (spent none) whole tried h = absurd (tried refl)
  conclude-IsMirrored t (spent (some e)) whole tried h = absurd (none-ne-some _ (sym h))

-- What is on disk before the run is the beginning of the file, and the server is honest about it.
abbrev pub Serves : Engine → Remote → Row → Content → Disk → Type 0
Serves engine remote r file d =
    ((rest : Content) × (or_else [] (
            content_at (partial remote.digest engine.layout engine.source_name r.source_key)
              d.files)
          ++ rest
        ≡ file))
    × ((k start : ℕ) → IsHonest file start (remote.attempt k start))

pub start-IsResumable :
    (file : Content) (path : Text) (d : Disk) (t : Table)
    → (rest : Content) × (or_else [] (content_at path d.files) ++ rest ≡ file)
    → IsResumable file path
        (record { disk = record d { table = t }; start_at = offset_at path d.files 0 })
start-IsResumable file path d t part = (part, size (content_at path d.files) refl)
  where
    size :
        (c : Option Content)
        → content_at path d.files ≡ c
        → offset_at path d.files 0 ≡ length (or_else [] (content_at path d.files))
    size none e = rw (e, offset_at)
    size (some c) e = rw (e, offset_at)

download_row-IsMirrored :
    (engine : Engine) (remote : Remote) (now id : ℕ) (d : Disk) (r : Row) (file : Content)
    (final_path : Text)
    → final engine.layout (item_of remote r) ≡ Layout.ok final_path
    → 0 < engine.retry_attempts
    → Serves engine remote r file d
    → (download_row engine remote now id r d).1 ≡ none
    → IsMirrored engine r final_path file (download_row engine remote now id r d).0
unfolding download_row
download_row-IsMirrored engine remote now id d r file final_path e tried (part, honest) h =
    elim (Bool-cases remote.mkdir_partials_fails) [
      | inl p ↦ absurd (none-ne-some _ (sym (rw p at (rw (e, download_row) at h))))
      | inr p ↦ elim (Bool-cases remote.mkdir_final_fails) [
        | inl q ↦ absurd (none-ne-some _ (sym (rw (p, q) at (rw (e, download_row) at h))))
        | inr q ↦
            rw (e, download_row) (rw (p, q) (concluded (rw (p, q) at (rw (e, download_row) at h))))
      ]
    ]
  where
    path : Text
    path = partial remote.digest engine.layout engine.source_name r.source_key

    start : Transfer
    start = record {
      disk = record d { table = mark_downloading id (offset_at path d.files 0) now d.table };
      start_at = offset_at path d.files 0;
    }

    after : Transfer × Retried
    after = retry remote id path (size_of r) engine.retry_attempts 0 none start

    concluded :
        (conclude engine remote now id (item_of remote r) r path final_path after).1 ≡ none
        → IsMirrored engine r final_path file
            (conclude engine remote now id (item_of remote r) r path final_path after).0
    concluded k =
        let (_, whole, never) =
          retry-IsRetried remote id path (size_of r) file honest engine.retry_attempts 0 none start
            (start-IsResumable file path d start.disk.table part) in
        conclude-IsMirrored engine remote now id (item_of remote r) r path final_path file after.0
          after.1 whole (λ q. absurd (omega (arith, tried, (never q).0))) k

-- A successful Download of a row that is not ready, with at least one attempt allowed, ends with
-- the whole file at the item's final path and a ready row that records it, whatever errors, partial
-- reads, restarts and resumes the attempts went through: provided that the server is honest and
-- that what the partial file held before is a beginning of the file.
pub download-IsMirrored :
    (engine : Engine) (remote : Remote) (now id : ℕ) (d : Disk) (r : Row) (file : Content)
    (final_path : Text)
    → find (has_id id) d.table.rows ≡ some r
    → is_ready r.status ≡ false
    → final engine.layout (item_of remote r) ≡ Layout.ok final_path
    → 0 < engine.retry_attempts
    → Serves engine remote r file d
    → (download engine remote now id d).1 ≡ none
    → IsMirrored engine r final_path file (download engine remote now id d).0
unfolding download
download-IsMirrored engine remote now id d r file final_path found waiting e tried serves h =
    elim (Bool-cases (text_eq r.source engine.source_name)) [
      | inr p ↦ absurd (none-ne-some _ (sym (rw p at (rw (found, download) at h))))
      | inl p ↦ elim (Bool-cases (remote.resolves r.source_key)) [
        | inr q ↦ absurd (none-ne-some _ (sym (rw (p, waiting, q) at (rw (found, download) at h))))
        | inl q ↦
            rw (found, download)
              (rw (p, waiting, q)
                (download_row-IsMirrored engine remote now id d r file final_path e tried serves
                  (rw (p, waiting, q) at (rw (found, download) at h))))
      ]
    ]
