-- ===== src/Lifecycle/Downloads.antt =====
-- Every operation on the mirror ends in a table that the step relation reaches.
use plex_mirror.Base.{
  ℕ, zero, suc, ◌≡◌, refl, inl, inr, not, ◌&&◌, Option, none, some, if◌then◌else◌, Bool-cases,
  Option-cases, Text, length, text_eq, ltb, ◌==◌,
}
use plex_mirror.Items.{Table, Row, Transient, has_id, find, is_ready, size_of}
use plex_mirror.Files.{Content, content_at}
use plex_mirror.Source.{Item}
use plex_mirror.Layout.{final, partial}
use plex_mirror.Storage.{Disk, record_ready}
use plex_mirror.Storage
use plex_mirror.Download.Queueing.{mark_downloading}
use plex_mirror.Download.Fetch.{Outcome, done, permanently, transiently, Transfer, fetch_once}
use plex_mirror.Download.{
  Engine, Remote, Retried, fetched, stopped, refused, spent, offset_at, retry, item_of, landed,
  land, settle, conclude, download_row, download, ready_item,
}
use plex_mirror.Lifecycle.{IsReachable, next, starts, fails, records}
use plex_mirror.Lifecycle.Statements.{Layout-cases}
use plex_mirror.Lifecycle.Transfers.{fetch_once-Reaches}

-- The table that the retry loop ends in.
abbrev Ends : Transfer × Retried → Type 0
Ends r = IsReachable r.0.disk.table

module _ (remote : Remote) (id : ℕ) (path : Text) (expected : ℕ) where
  again-IsReachable :
      (attempt : ℕ) (t' : Transfer) (outcome : Outcome) (again : Transient → Transfer × Retried)
      → IsReachable t'.disk.table
      → ((e : Transient) → IsReachable (again e).0.disk.table)
      → Ends (elim outcome [
        | done ↦ (t', fetched)
        | permanently e ↦ (t', refused e)
        | transiently e ↦ if remote.canceled_after attempt then (t', stopped) else again e
      ])
  again-IsReachable attempt t' done again v k = v
  again-IsReachable attempt t' (permanently e) again v k = v
  again-IsReachable attempt t' (transiently e) again v k =
      elim (Bool-cases (remote.canceled_after attempt)) [ inl c ↦ rw c v | inr c ↦ rw c (k e) ]

  retry-IsReachable :
      (left attempt : ℕ) (last : Option Transient) (t : Transfer)
      → IsReachable t.disk.table
      → IsReachable (retry remote id path expected left attempt last t).0.disk.table
  unfolding retry
  retry-IsReachable zero attempt last t v = v
  retry-IsReachable (suc left) attempt last t v =
      elim (Bool-cases (remote.canceled_before attempt)) [
        | inl c ↦ rw c v
        | inr c ↦
            let after = fetch_once (remote.attempt attempt t.start_at) id path expected t in
            let again : Transient → Transfer × Retried = λ e.
              retry remote id path expected left (suc attempt) (some e) (record (after.0) {
                start_at = offset_at path after.0.disk.files after.0.start_at;
              }) in
            let reached =
              fetch_once-Reaches (remote.attempt attempt t.start_at) id path expected t v in
            rw c (
              again-IsReachable attempt after.0 after.1 again reached
                (λ e. retry-IsReachable left (suc attempt) (some e) _ reached))
      ]

module _ (engine : Engine) (remote : Remote) (now id : ℕ) (item : Item) (r : Row)
    (partial_path final_path : Text) where
  landed-IsReachable :
      (c : Content) (d moved : Disk) (o : Storage.Result (ℕ × Table))
      → record_ready (ready_item engine item r final_path (length c)) now d.table ≡ o
      → moved.table ≡ d.table
      → IsReachable d.table
      → IsReachable (landed moved o).0.table
  unfolding landed
  landed-IsReachable c d moved (Storage.err x) e same v = rw same v
  landed-IsReachable c d moved (Storage.ok (row_id, t)) e same v =
      next v (records (ready_item engine item r final_path (length c)) now row_id e)

  land-IsReachable :
      (c : Content) (d : Disk)
      → IsReachable d.table
      → IsReachable (land engine remote now id item r partial_path final_path c d).0.table
  unfolding land
  land-IsReachable c d v = elim (Bool-cases (ltb 0 (size_of r) && not (length c == size_of r))) [
    | inl p ↦ rw p (next v (fails id _))
    | inr p ↦ elim (Bool-cases remote.rename_fails) [
      | inl q ↦ rw (p, q) (next v (fails id _))
      | inr q ↦ rw (p, q) (landed-IsReachable c d _ _ refl refl v)
    ]
  ]

  settle-IsReachable :
      (d : Disk)
      → IsReachable d.table
      → IsReachable (settle engine remote now id item r partial_path final_path d).0.table
  unfolding settle
  settle-IsReachable d v = elim (Option-cases (content_at partial_path d.files)) [
    | inl e ↦ rw (e, settle) (next v (fails id _))
    | inr (c, e) ↦ rw (e, settle) (land-IsReachable c d v)
  ]

  conclude-IsReachable :
      (t : Transfer) (result : Retried)
      → IsReachable t.disk.table
      → IsReachable
          (conclude engine remote now id item r partial_path final_path (t, result)).0.table
  unfolding conclude
  conclude-IsReachable t fetched v = settle-IsReachable t.disk v
  conclude-IsReachable t stopped v = v
  conclude-IsReachable t (refused e) v = next v (fails id _)
  conclude-IsReachable t (spent none) v = settle-IsReachable t.disk v
  conclude-IsReachable t (spent (some e)) v = next v (fails id _)

download_row-IsReachable :
    (engine : Engine) (remote : Remote) (now id : ℕ) (r : Row) (d : Disk)
    → IsReachable d.table
    → IsReachable (download_row engine remote now id r d).0.table
unfolding download_row
download_row-IsReachable engine remote now id r d v =
    elim (Layout-cases (final engine.layout (item_of remote r))) [
      | inr (x, e) ↦ rw (e, download_row) (next v (fails id _))
      | inl (final_path, e) ↦ elim (Bool-cases remote.mkdir_partials_fails) [
        | inl p ↦ rw (e, download_row) (rw p v)
        | inr p ↦ elim (Bool-cases remote.mkdir_final_fails) [
          | inl q ↦ rw (e, download_row) (rw (p, q) v)
          | inr q ↦
              let path = partial remote.digest engine.layout engine.source_name r.source_key in
              let after = retry remote id path (size_of r) engine.retry_attempts 0 none (record {
                disk = record d {
                  table = mark_downloading id (offset_at path d.files 0) now d.table;
                };
                start_at = offset_at path d.files 0;
              }) in
              rw (e, download_row)
                (rw (p, q)
                  (conclude-IsReachable engine remote now id (item_of remote r) r path final_path
                    after.0 after.1
                    (retry-IsReachable remote id path (size_of r) engine.retry_attempts 0 none _
                      (next v (starts id (offset_at path d.files 0) now)))))
        ]
      ]
    ]

pub download-IsReachable :
    (engine : Engine) (remote : Remote) (now id : ℕ) (d : Disk)
    → IsReachable d.table
    → IsReachable (download engine remote now id d).0.table
unfolding download
download-IsReachable engine remote now id d v =
    elim (Option-cases (find (has_id id) d.table.rows)) [
      | inl e ↦ rw (e, download) v
      | inr (r, e) ↦ elim (Bool-cases (text_eq r.source engine.source_name)) [
        | inr p ↦ rw (e, download) (rw p v)
        | inl p ↦ elim (Bool-cases (is_ready r.status)) [
          | inl q ↦ rw (e, download) (rw (p, q) v)
          | inr q ↦ elim (Bool-cases (remote.resolves r.source_key)) [
            | inr u ↦ rw (e, download) (rw (p, q, u) (next v (fails id _)))
            | inl u ↦
                rw (e, download)
                  (rw (p, q, u) (download_row-IsReachable engine remote now id r d v))
          ]
        ]
      ]
    ]
