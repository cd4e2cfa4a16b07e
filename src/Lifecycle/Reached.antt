-- ===== src/Lifecycle/Reached.antt =====
-- The invariant of every table that the program can come to.
use plex_mirror.Base.{All}
use plex_mirror.Items.{Table, empty_table}
use plex_mirror.Items.Order.{IsWellFormed, empty_table-IsWellFormed}
use plex_mirror.Lifecycle.{IsReachable, first, next}
use plex_mirror.Lifecycle.Statements.{step-IsWellFormed}
use plex_mirror.Lifecycle.Settled.{IsSettled, step-IsSettled}

-- Whatever the order in which workers, the sweeper and the portal run their statements, the table
-- keeps its constraints, and each row's other columns are what its status says: a queued row has no
-- error, a downloading one has no error and a start, a ready one has its path, its completion and no
-- error, an evicted one has no path, and a failed one has its error.
pub reachable-IsSettled : (t : Table) → IsReachable t → IsWellFormed t × All IsSettled t.rows
unfolding empty_table
reachable-IsSettled t first = (empty_table-IsWellFormed, tt)
reachable-IsSettled t (next {t = s} before step) =
    let (v, settled) = reachable-IsSettled s before in
    (step-IsWellFormed step v, step-IsSettled step settled)
