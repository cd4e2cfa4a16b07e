-- ===== src/Download.antt =====
-- internal/download/engine.go: the engine of one source, over the `items` table and the files. A
-- SQL statement takes effect; unixepoch() is the argument `now`.
pub mod Queueing
pub mod ContentRange
pub mod Fetch
pub mod Honest
pub mod Copying
pub mod Resume
pub mod Integrity
pub mod Delivered
pub mod Completing
use plex_mirror.Base.{
  ℕ, zero, suc, ◌+◌, Bool, true, false, not, ◌&&◌, ◌||◌, Option, none, some, List, [], ◌∷◌,
  if◌then◌else◌, ltb, ◌==◌, or_else, Text, text_eq, is_empty, length,
}
use plex_mirror.Files.{Files, Content, content_at, put, erase}
use plex_mirror.Items.{
  Row, Table, Status, queued, downloading, ready, error, is_ready, Message, resolve_url, bad_layout,
  permanent, retries_exhausted, stat_partial, size_mismatch, rename, Transient, Permanent, has_id,
  find, update, size_of,
}
use plex_mirror.Source.{Item, other}
use plex_mirror.Base.Int.{pos}
use plex_mirror.Layout.{Layout, final, partial}
use plex_mirror.Layout
use plex_mirror.Storage.{Disk, ReadyItem, record_ready}
use plex_mirror.Storage
use Queueing.{mark_downloading, mark_error}
use Fetch.{Attempt, Outcome, done, permanently, transiently, Transfer, fetch_once}

pub record Engine : Type 0 where
  pub layout : Layout
  pub source_name : Text
  pub retry_attempts : ℕ

-- What lies outside the program: the resolver, the metadata it can re-fetch (none where it is no
-- source, or the call fails), the SHA-256 digest, the server's answer to each attempt at each
-- offset, and the calls on the file system that fail.
pub record Remote : Type 0 where
  pub resolves : Text → Bool
  pub metadata : Text → Option Item
  pub digest : Text → Text
  pub attempt : ℕ → ℕ → Attempt
  pub canceled_before : ℕ → Bool
  pub canceled_after : ℕ → Bool
  pub mkdir_partials_fails : Bool
  pub mkdir_final_fails : Bool
  pub rename_fails : Bool

pub data Failure : Type 0 where
  load_item : Failure
  other_source : Failure
  resolving : Failure
  layout_failed : Failure
  mkdir_partials : Failure
  mkdir_final : Failure
  canceled : Failure
  gave_up : Permanent → Failure
  exhausted : Transient → Failure
  stat_failed : Failure
  size_differs : ℕ → ℕ → Failure
  rename_failed : Failure
  recording : Failure

-- The result of the retry loop.
pub data Retried : Type 0 where
  fetched : Retried
  stopped : Retried
  refused : Permanent → Retried
  spent : Option Transient → Retried

-- Re-stat: where the partial file is there, its size is the offset.
abbrev pub offset_at : Text → Files → ℕ → ℕ
offset_at path files start_at = elim (content_at path files) [ none ↦ start_at | some c ↦ length c ]

module _ (remote : Remote) (id : ℕ) (path : Text) (expected : ℕ) where
  -- `left` attempts of the retry loop, the next one being number `attempt`; `last` is lastErr.
  unfoldable pub retry : ℕ → ℕ → Option Transient → Transfer → Transfer × Retried
  retry zero attempt last t = (t, spent last)
  retry (suc left) attempt last t =
      if remote.canceled_before attempt
      then (t, stopped)
      else let (t', outcome) = fetch_once (remote.attempt attempt t.start_at) id path expected t in
        let again : Transient → Transfer × Retried = λ e.
          retry left (suc attempt) (some e)
            (record t' { start_at = offset_at path t'.disk.files t'.start_at }) in
        elim outcome [
          | done ↦ (t', fetched)
          | permanently e ↦ (t', refused e)
          | transiently e ↦ if remote.canceled_after attempt then (t', stopped) else again e
        ]

-- The item whose path is laid out: the source's metadata where it has them, else the row's columns.
-- The row's item has no kind.
unfoldable pub item_of : Remote → Row → Item
item_of remote r =
    or_else
      (record {
        id = r.source_key;
        title = r.title;
        kind = other;
        year = 0;
        container = or_else [] r.container;
        size_bytes = size_of r;
        show_title = [];
        season_number = pos 0;
        episode_number = pos 0;
        parent_id = [];
      })
      (remote.metadata r.source_key)

abbrev fail_with : ℕ → Message → Disk → Disk
fail_with id message d = record d { table = mark_error id message d.table }

pub ready_item : Engine → Item → Row → Text → ℕ → ReadyItem
ready_item engine item r final_path size = record {
  source = engine.source_name;
  source_key = r.source_key;
  title = item.title;
  container = item.container;
  local_path = final_path;
  size_bytes = size;
}

-- After the rename: the disk with the file in place, and what RecordReady said.
unfoldable pub landed : Disk → Storage.Result (ℕ × Table) → Disk × Option Failure
landed moved (Storage.ok (id, t)) = (record moved { table = t }, none)
landed moved (Storage.err e) = (moved, some recording)

-- The integrity check, the rename and RecordReady; `c` is what the partial file holds.
unfoldable pub land :
    Engine → Remote → ℕ → ℕ → Item → Row → Text → Text → Content → Disk → Disk × Option Failure
unfolding landed ready_item
land engine remote now id item r partial_path final_path c d =
    let size = length c in
    if ltb 0 (size_of r) && not (size == size_of r)
    then (fail_with id (size_mismatch size (size_of r)) d, some (size_differs size (size_of r)))
    else if remote.rename_fails
    then (fail_with id rename d, some rename_failed)
    else landed (record d { files = put final_path c (erase partial_path d.files) })
        (record_ready (ready_item engine item r final_path size) now d.table)

-- From the end of the retry loop on.
unfoldable pub settle :
    Engine → Remote → ℕ → ℕ → Item → Row → Text → Text → Disk → Disk × Option Failure
unfolding land
settle engine remote now id item r partial_path final_path d =
    elim (content_at partial_path d.files) [
      | none ↦ (fail_with id stat_partial d, some stat_failed)
      | some c ↦ land engine remote now id item r partial_path final_path c d
    ]

-- What Download does with the result of its retry loop.
unfoldable pub conclude :
    Engine → Remote → ℕ → ℕ → Item → Row → Text → Text → Transfer × Retried → Disk × Option Failure
unfolding settle
conclude engine remote now id item r partial_path final_path (t, fetched) =
    settle engine remote now id item r partial_path final_path t.disk
conclude engine remote now id item r partial_path final_path (t, stopped) = (t.disk, some canceled)
conclude engine remote now id item r partial_path final_path (t, refused e) =
    (fail_with id (permanent e) t.disk, some (gave_up e))
conclude engine remote now id item r partial_path final_path (t, spent none) =
    settle engine remote now id item r partial_path final_path t.disk
conclude engine remote now id item r partial_path final_path (t, spent (some e)) =
    (fail_with id (retries_exhausted e) t.disk, some (exhausted e))

-- Download past the checks on the row.
unfoldable pub download_row : Engine → Remote → ℕ → ℕ → Row → Disk → Disk × Option Failure
unfolding conclude retry mark_error item_of mark_downloading
download_row engine remote now id r d =
    let item = item_of remote r in
    elim (final engine.layout item) [
      | Layout.err e ↦ (fail_with id bad_layout d, some layout_failed)
      | Layout.ok final_path ↦
          let partial_path = partial remote.digest engine.layout engine.source_name r.source_key in
          let start_at = offset_at partial_path d.files 0 in
          let started = record d { table = mark_downloading id start_at now d.table } in
          if remote.mkdir_partials_fails
          then (d, some mkdir_partials)
          else if remote.mkdir_final_fails
          then (d, some mkdir_final)
          else conclude engine remote now id item r partial_path final_path (
              retry remote id partial_path (size_of r) engine.retry_attempts 0 none
                (record { disk = started; start_at = start_at }))
    ]

unfoldable pub download : Engine → Remote → ℕ → ℕ → Disk → Disk × Option Failure
unfolding download_row fetch_once record_ready
download engine remote now id d = elim (find (has_id id) d.table.rows) [
  | none ↦ (d, some load_item)
  | some r ↦
      if not (text_eq r.source engine.source_name)
      then (d, some other_source)
      else if is_ready r.status
      then (d, none)
      else if not (remote.resolves r.source_key)
      then (fail_with id resolve_url d, some resolving)
      else download_row engine remote now id r d
]
