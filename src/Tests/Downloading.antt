-- ===== src/Tests/Downloading.antt =====
-- Runs of internal/download/engine.go.
use plex_mirror.Base.{
  ℕ, ◌≡◌, refl, true, false, none, some, [], ◌∷◌, ◌&&◌, Text, codes, arith, of_some, All, text_eq,
}
use plex_mirror.Files.{Content, put, content_at}
use plex_mirror.Items.{Row, Table, Status, evicted, update_where, find, has_id, has_key}
use plex_mirror.Items.Order.{IsWellFormed}
use plex_mirror.Layout.{final}
use plex_mirror.Layout
use plex_mirror.Download.Fetch.{Read, Response, Attempt, Transfer, eof, more, fetch_once}
use plex_mirror.Download.Honest.{IsHonest, IsResumable, IsSound}
use plex_mirror.Download.Resume.{fetch_once-IsSound}
use plex_mirror.Download.{Engine, Remote, item_of, download}
use plex_mirror.Download.Integrity.{IsMirrored, Serves, download-IsMirrored}
use plex_mirror.Download.Queueing.{flush_progress, queue, queued_rows}
use plex_mirror.Download.Queueing
use plex_mirror.Download.Queueing.Requeue.{IsRequeued, queue_effect, queue_leaves_evicted}
use plex_mirror.Tests.Fixtures.{row, disk, table, table-IsWellFormed, layout, movie_item}

abbrev pub file : Content
file = 1 ∷ 2 ∷ 3 ∷ []

abbrev piece : Content → Read
piece chunk = record {
  canceled = false;
  chunk = chunk;
  write_fails = none;
  flush_due = false;
  ending = more;
}

-- The server's answer to a request for what follows the first byte.
abbrev rest_response : Response
rest_response = record {
  status_code = 206;
  content_range = codes "bytes 1-2/3";
  body = piece (2 ∷ []) ∷ record (piece (3 ∷ [])) { ending = eof } ∷ [];
}

abbrev pub answer : Response → Attempt
answer r = record {
  builds = true;
  response = some r;
  remove_fails = false;
  open_fails = false;
  sync_fails = false;
  now = 30;
}

rest_response-IsHonest : IsHonest file 1 (answer rest_response)
rest_response-IsHonest r e =
    let same : rest_response ≡ r = of_some e in
    rw (← same) (
      (λ h. absurd (omega arith)),
      (λ h. (3 ∷ [], refl, (λ q. cc), ([], refl, (λ q. refl), tt))),
      (λ h. absurd (omega arith)),
    )

abbrev started : Transfer
started = record {
  disk = record { table = table; files = (codes "/p", 1 ∷ []) ∷ [] };
  start_at = 1;
}

started-IsResumable : IsResumable file (codes "/p") started
unfolding content_at text_eq
started-IsResumable = ((2 ∷ 3 ∷ [], refl), refl)

fetch_once-IsSound_example :
    IsSound file (codes "/p") (fetch_once (answer rest_response) 4 (codes "/p") 3 started)
fetch_once-IsSound_example =
    fetch_once-IsSound file (answer rest_response) 4 (codes "/p") 3 started rest_response-IsHonest
      started-IsResumable

-- A server that sends the whole file, whatever it is asked for.
abbrev pub whole_response : Response
whole_response = record {
  status_code = 200;
  content_range = [];
  body = piece (1 ∷ 2 ∷ []) ∷ record (piece (3 ∷ [])) { ending = eof } ∷ [];
}

pub whole_response-IsHonest : (start : ℕ) → IsHonest file start (answer whole_response)
whole_response-IsHonest start r e =
    let same : whole_response ≡ r = of_some e in
    rw (← same) (
      (λ h. (3 ∷ [], refl, (λ q. cc), ([], refl, (λ q. refl), tt))),
      (λ h. absurd (omega arith)),
      (λ h. absurd (omega arith)),
    )

abbrev pub remote : Remote
remote = record {
  resolves = λ _. true;
  metadata = λ key. some (movie_item key);
  digest = λ text. codes "d1";
  attempt = λ k start. answer whole_response;
  canceled_before = λ _. false;
  canceled_after = λ _. false;
  mkdir_partials_fails = false;
  mkdir_final_fails = false;
  rename_fails = false;
}

abbrev pub engine : Engine
engine = record { layout = layout; source_name = codes "plex"; retry_attempts = 5 }

abbrev pub queued_d : Row
queued_d = row 4 (codes "d") Status.queued 3 none

abbrev pub alien : Text
alien = codes "/media/movies/Alien (1979).mkv"

pub queued_d_found : find (has_id 4) disk.table.rows ≡ some queued_d
unfolding find
queued_d_found = refl

alien_path : (key : Text) → final layout (movie_item key) ≡ Layout.ok alien
unfolding final
alien_path key = refl

served : Serves engine remote queued_d file disk
unfolding content_at text_eq Layout.partial
served = ((file, refl), λ k start. whole_response-IsHonest start)

alien_landing : final engine.layout (item_of remote queued_d) ≡ Layout.ok alien
unfolding item_of final
alien_landing = refl

downloads : (download engine remote 40 4 disk).1 ≡ none
unfolding download find text_eq final content_at Layout.partial put flush_progress update_where
downloads = refl

download-IsMirrored_example :
    IsMirrored engine queued_d alien file (download engine remote 40 4 disk).0
download-IsMirrored_example =
    download-IsMirrored engine remote 40 4 disk queued_d file alien queued_d_found refl
      alien_landing (omega arith) served downloads

queue_effect_example :
    (r : Row) × (t' : Table) × (queue layout (codes "plex") (movie_item (codes "c")) 50 table
      ≡ Queueing.ok r.id t')
    × (find (has_key (codes "plex") (codes "c")) t'.rows ≡ some r)
    × IsRequeued
        (movie_item (codes "c"))
        50
        (find (has_key (codes "plex") (codes "c")) table.rows)
        r
    × ((s k : Text)
        → (text_eq s (codes "plex") && text_eq k (codes "c")) ≡ false
        → find (has_key s k) t'.rows ≡ find (has_key s k) table.rows)
    × IsWellFormed t'
queue_effect_example =
    queue_effect layout (codes "plex") (movie_item (codes "c")) 50 table alien refl
      (alien_path (codes "c")) table-IsWellFormed

abbrev evicted_e : Row
evicted_e = row 1 (codes "e") evicted 3 none

abbrev evicted_table : Table
evicted_table = record { rows = evicted_e ∷ []; next_id = 2 }

evicted_table-IsWellFormed : IsWellFormed evicted_table
unfolding find
evicted_table-IsWellFormed = record { ordered = (omega arith, omega arith); unique = (refl, tt) }

evicted_e_found : find (has_key (codes "plex") (codes "e")) evicted_table.rows ≡ some evicted_e
unfolding find text_eq
evicted_e_found = refl

queue_leaves_evicted_example :
    (r : Row) × (t' : Table) × (queue layout
        (codes "plex")
        (movie_item (codes "e"))
        50
        evicted_table
      ≡ Queueing.ok r.id t')
    × (find (has_key (codes "plex") (codes "e")) t'.rows ≡ some r)
    × (r.status ≡ evicted)
    × All (λ q. has_key (codes "plex") (codes "e") q ≡ false) (queued_rows (codes "plex") t')
queue_leaves_evicted_example =
    queue_leaves_evicted layout (codes "plex") (movie_item (codes "e")) 50 evicted_table alien
      evicted_e refl (alien_path (codes "e")) evicted_table-IsWellFormed evicted_e_found refl
