-- ===== src/Tests/Fixtures.antt =====
-- A table with two ready movies, a failed one and a queued one, and the files of the first two.
use plex_mirror.Base.{ℕ, ◌-◌, refl, false, Option, none, some, [], ◌∷◌, Text, codes, arith, text_eq}
use plex_mirror.Base.Int.{pos}
use plex_mirror.Items.{Row, Table, Status, ready, queued, error, find}
use plex_mirror.Items.Order.{IsWellFormed}
use plex_mirror.Source.{Item, movie}
use plex_mirror.Layout.{Layout}
use plex_mirror.Storage.{Disk, Env, Policy}

abbrev pub row : ℕ → Text → Status → ℕ → Option Text → Row
row id key status size path = record {
  id = id;
  source = codes "plex";
  source_key = key;
  title = key;
  container = some (codes "mkv");
  size_bytes = some size;
  local_path = path;
  status = status;
  bytes_done = 0;
  message = none;
  queued_at = id;
  started_at = none;
  completed_at = some (10 - id);
  last_accessed = none;
  last_progress_at = none;
}

abbrev pub table : Table
table = record {
  rows =
      row 1 (codes "a") ready 60 (some (codes "/media/movies/a.mkv"))
      ∷ row 2 (codes "b") ready 50 (some (codes "/media/movies/b.mkv"))
      ∷ row 3 (codes "c") error 3 none
      ∷ row 4 (codes "d") queued 3 none
      ∷ [];
  next_id = 5;
}

pub table-IsWellFormed : IsWellFormed table
unfolding find text_eq
table-IsWellFormed = record {
  ordered = (omega arith, (omega arith, (omega arith, (omega arith, omega arith))));
  unique = (refl, (refl, (refl, (refl, tt))));
}

abbrev pub disk : Disk
disk = record {
  table = table;
  files =
      (codes "/media/movies/a.mkv", 1 ∷ 2 ∷ [])
      ∷ (codes "/media/movies/b.mkv", 3 ∷ [])
      ∷ (codes "/etc/passwd", 4 ∷ [])
      ∷ [];
}

abbrev pub env : Env
env = record { cwd = none; refuses = λ _. false; update_fails = λ _. false }

abbrev pub policy : Policy
policy = record { media_root = codes "/media"; hard_cap_bytes = 100; soft_cap_bytes = 0 }

abbrev pub layout : Layout
layout = record { media_root = codes "/media"; movies_dir = []; shows_dir = []; other_dir = [] }

abbrev pub movie_item : Text → Item
movie_item key = record {
  id = key;
  title = codes "Alien";
  kind = movie;
  year = 1979;
  container = codes "mkv";
  size_bytes = 3;
  show_title = [];
  season_number = pos 0;
  episode_number = pos 0;
  parent_id = [];
}
