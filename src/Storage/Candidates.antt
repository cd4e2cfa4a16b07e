-- ===== src/Storage/Candidates.antt =====
-- The SELECT of EvictNow: the ready rows, oldest completion first and by id within a second.
pub mod Rows
use plex_mirror.Base.{
  ℕ, Bool, true, false, ◌&&◌, ◌||◌, List, [], ◌∷◌, map, if◌then◌else◌, ltb, ◌==◌, or_else, Text,
  keep,
}
use plex_mirror.Items.{Row, Table, is_ready, size_of}
use plex_mirror.Items.Sorting.{sort_rows}

pub record Candidate : Type 0 where
  pub id : ℕ
  pub path : Text
  pub size : ℕ

-- COALESCE(completed_at, 0)
abbrev pub completed : Row → ℕ
completed r = or_else 0 r.completed_at

-- `path` is "" where local_path is NULL.
abbrev pub to_candidate : Row → Candidate
to_candidate r = record { id = r.id; path = or_else [] r.local_path; size = size_of r }

unfoldable pub ready_rows : Table → List Row
unfolding sort_rows keep
ready_rows t = sort_rows completed (keep (λ r. is_ready r.status) t.rows)

unfoldable pub ready_candidates : Table → List Candidate
unfolding ready_rows
ready_candidates t = map to_candidate (ready_rows t)
