-- ===== src/Items/Sorting.antt =====
-- ORDER BY a count and the id, ascending.
use plex_mirror.Base.{ℕ, Bool, ◌&&◌, ◌||◌, List, [], ◌∷◌, if◌then◌else◌, ltb, ◌==◌}
use plex_mirror.Items.{Row}

module _ (key : Row → ℕ) where
  abbrev pub before : Row → Row → Bool
  before r s = ltb (key r) (key s) || (key r == key s && ltb r.id s.id)

  unfoldable pub insert_row : Row → List Row → List Row
  insert_row r [] = r ∷ []
  insert_row r (s ∷ rs) = if before s r then s ∷ insert_row r rs else r ∷ s ∷ rs

  unfoldable pub sort_rows : List Row → List Row
  unfolding insert_row
  sort_rows [] = []
  sort_rows (r ∷ rs) = insert_row r (sort_rows rs)
