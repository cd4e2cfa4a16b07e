-- ===== src/Download/Fetch.antt =====
-- fetchOnce of internal/download/engine.go: one HTTP attempt.
use plex_mirror.Base.{
  ℕ, ◌+◌, Bool, not, ◌&&◌, Option, none, some, List, [], ◌∷◌, ◌++◌, if◌then◌else◌, ltb, leb, ◌==◌,
  or_else, is_some, Text, is_empty, length, take,
}
use plex_mirror.Base.Int.{ℤ, pos, negsuc}
use plex_mirror.Files.{Content, content_at, put, erase}
use plex_mirror.Items.{
  Permanent, build_request, content_range_total, no_partial_file, partial_size, http_status,
  Transient, transport, truncate_partial, http_retryable, open_partial, write_partial, read_body,
  sync_partial, context_done,
}
use plex_mirror.Storage.{Disk}
use plex_mirror.Download.Queueing.{flush_progress}
use plex_mirror.Download.ContentRange.{parse_content_range_total}

-- How a Read ends: more may follow, the body is over, or the connection broke.
pub data Ending : Type 0 where
  more eof broken : Ending

-- One round of the copy loop: whether the context is done, the bytes read, how many bytes a failing
-- Write wrote, and whether a flush is due.
pub record Read : Type 0 where
  pub canceled : Bool
  pub chunk : Content
  pub write_fails : Option ℕ
  pub flush_due : Bool
  pub ending : Ending

pub record Response : Type 0 where
  pub status_code : ℕ
  pub content_range : Text
  pub body : List Read

-- What the attempt meets: no response is a transport error.
pub record Attempt : Type 0 where
  pub builds : Bool
  pub response : Option Response
  pub remove_fails : Bool
  pub open_fails : Bool
  pub sync_fails : Bool
  pub now : ℕ

pub data Outcome : Type 0 where
  done : Outcome
  permanently : Permanent → Outcome
  transiently : Transient → Outcome

-- The disk and startAt, which the attempt updates.
pub record Transfer : Type 0 where
  pub disk : Disk
  pub start_at : ℕ

abbrev pub size_of_file : Option Content → ℕ
size_of_file none = 0
size_of_file (some c) = length c

-- The total of a Content-Range header that is not the expected size.
abbrev pub mismatch : ℕ → Text → Option ℤ
mismatch expected header = elim (parse_content_range_total header) [
  | none ↦ none
  | some (pos n) ↦ if ltb 0 expected && not (n == expected) then some (pos n) else none
  | some (negsuc n) ↦ if ltb 0 expected then some (negsuc n) else none
]

module _ (id : ℕ) (path : Text) (now : ℕ) where
  abbrev pub flush : Transfer → Transfer
  flush t = record t {
    disk = record (t.disk) { table = flush_progress id t.start_at now t.disk.table };
  }

  -- Write to the end of the partial file.
  abbrev pub append : Content → Transfer → Transfer
  append bytes t = record t {
    disk = record (t.disk) {
      files = put path (or_else [] (content_at path t.disk.files) ++ bytes) t.disk.files;
    };
  }

  -- What Read returned is written, and flushed where that is due.
  unfoldable pub advance : Read → Transfer → Transfer
  advance r t =
      let written = append r.chunk t in
      let moved = record written { start_at = t.start_at + length r.chunk } in
      if is_empty r.chunk then t else if r.flush_due then flush moved else moved

  -- What follows the write: the next round, the end of the body with f.Sync, or a read error.
  unfoldable pub end_read : Bool → Transfer → Transfer × Outcome → Ending → Transfer × Outcome
  end_read sync_fails next rest more = rest
  end_read sync_fails next rest eof =
      (flush next, if sync_fails then transiently sync_partial else done)
  end_read sync_fails next rest broken = (flush next, transiently read_body)

  -- The copy loop; a body with nothing left and no EOF is a broken one.
  unfoldable pub copy : Bool → List Read → Transfer → Transfer × Outcome
  unfolding advance end_read
  copy sync_fails [] t = (flush t, transiently read_body)
  copy sync_fails (r ∷ rs) t =
      let next = advance r t in
      let rest = copy sync_fails rs next in
      if r.canceled
      then (flush t, transiently context_done)
      else if not (is_empty r.chunk) && is_some r.write_fails
      then (append (take (or_else 0 r.write_fails) r.chunk) t, transiently write_partial)
      else end_read sync_fails next rest r.ending

  -- Opened for appending, or truncated at offset 0.
  abbrev pub opened : Transfer → Transfer
  opened t = record t {
    disk = record (t.disk) {
      files =
          put path (if t.start_at == 0 then [] else or_else [] (content_at path t.disk.files))
            t.disk.files;
    };
  }

  unfoldable pub receive : Attempt → List Read → Transfer → Transfer × Outcome
  unfolding copy
  receive a body t =
      if a.open_fails then (t, transiently open_partial) else copy a.sync_fails body (opened t)

  -- The partial file removed, at offset 0.
  abbrev pub cleared : Transfer → Transfer
  cleared t = record { disk = record (t.disk) { files = erase path t.disk.files }; start_at = 0 }

  -- 200: the server sends the whole file, so what is there is dropped.
  unfoldable pub restart : Attempt → List Read → Transfer → Transfer × Outcome
  unfolding receive
  restart a body t =
      if ltb 0 t.start_at
      then if a.remove_fails then (t, transiently truncate_partial) else receive a body (cleared t)
      else receive a body t

  -- 416: the file is whole already, or not what was expected.
  unfoldable pub check_whole : ℕ → Transfer → Transfer × Outcome
  check_whole expected t = elim (content_at path t.disk.files) [
    | none ↦ (t, permanently no_partial_file)
    | some c ↦
        if ltb 0 expected && not (length c == expected)
        then (t, permanently (partial_size (length c) expected))
        else (t, done)
  ]

  -- The switch on the status code.
  unfoldable pub respond : Attempt → Response → ℕ → Transfer → Transfer × Outcome
  unfolding restart receive check_whole
  respond a r expected t =
      if r.status_code == 200
      then restart a r.body t
      else if r.status_code == 206
      then elim (mismatch expected r.content_range) [
        | some total ↦ (t, permanently (content_range_total total expected))
        | none ↦ receive a r.body t
      ]
      else if r.status_code == 416
      then check_whole expected t
      else if leb 400 r.status_code && ltb r.status_code 500
      then (t, permanently (http_status r.status_code))
      else (t, transiently (http_retryable r.status_code))

unfoldable pub fetch_once : Attempt → ℕ → Text → ℕ → Transfer → Transfer × Outcome
unfolding respond
fetch_once a id path expected t =
    if not a.builds then (t, permanently build_request) else elim a.response [
      | none ↦ (t, transiently transport)
      | some r ↦ respond id path a.now a r expected t
    ]
