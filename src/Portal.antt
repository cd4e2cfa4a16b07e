-- ===== src/Portal.antt =====
-- internal/server/portal.go: what the portal shows of the items of a source, and the helpers of its
-- handlers; internal/server/views/helpers.go: which items it offers to queue.
pub mod Badges
pub mod Auth
pub mod Gauge
use plex_mirror.Base.{
  ℕ, zero, suc, ◌+◌, ◌/◌, ◌≡◌, Bool, true, false, not, ◌&&◌, ◌||◌, Option, none, some, List, [],
  ◌∷◌, if◌then◌else◌, ◌==◌, ltb, Text, codes, text_eq, is_empty,
}
use plex_mirror.Base.Int.{ℤ, pos, negsuc}
use plex_mirror.Base.Decimal.{parse_int}
use plex_mirror.Items.{
  Row, Table, Status, queued, downloading, ready, evicted, error, has_key, find,
}
use plex_mirror.Service.Queries.{in_flight, list_mirrored, StorageStats}

-- A map from item ids to statuses, and its assignment.
abbrev pub Statuses : Type 0
Statuses = Text → Option Status

abbrev pub assign : Text → Status → Statuses → Statuses
assign k s m n = if text_eq k n then some s else m n

-- One loop of statusMap.
unfoldable pub add_statuses : Text → List Row → Statuses → Statuses
unfolding text_eq
add_statuses source [] m = m
add_statuses source (r ∷ rs) m =
    add_statuses source rs (if text_eq r.source source then assign r.source_key r.status m else m)

unfoldable pub status_map : Text → Table → Statuses
unfolding add_statuses in_flight list_mirrored
status_map source t =
    add_statuses source (list_mirrored [] t) (add_statuses source (in_flight t) (λ n. none))

-- findMirror
unfoldable pub find_mirror : Text → Text → Table → Option Row
unfolding find in_flight list_mirrored
find_mirror source key t = elim (find (has_key source key) (in_flight t)) [
  | some r ↦ some r
  | none ↦ find (has_key source key) (list_mirrored [] t)
]

-- itemQueueable of the status that the map has for an item, none being the empty string
abbrev pub may_queue : Option Status → Bool
may_queue (some queued) = false
may_queue (some downloading) = false
may_queue (some ready) = false
may_queue _ = true

unfoldable pub item_queueable : Bool → Option Status → Bool
item_queueable downloadable s = downloadable && may_queue s

unfoldable pub can_queue : Bool → Option Status → Text → Bool
unfolding item_queueable
can_queue downloadable s container =
    downloadable && not (is_empty container) && item_queueable downloadable s

-- The count of handleQueueCount: an errored row is not in flight there.
abbrev pub is_pending : Status → Bool
is_pending queued = true
is_pending downloading = true
is_pending _ = false

unfoldable pub count_pending : List Row → ℕ
count_pending [] = 0
count_pending (r ∷ rs) =
    let rest = count_pending rs in if is_pending r.status then suc rest else rest

unfoldable pub queue_count : Table → ℕ
unfolding count_pending in_flight
queue_count t = count_pending (in_flight t)

-- overCap and gaugeMax
unfoldable pub over_cap : StorageStats → Bool
over_cap s =
    if ltb 0 s.soft_cap_bytes
    then ltb s.soft_cap_bytes s.used_bytes
    else if ltb 0 s.hard_cap_bytes
    then ltb s.hard_cap_bytes s.used_bytes
    else false

unfoldable pub gauge_max : StorageStats → ℕ
gauge_max s =
    if ltb 0 s.hard_cap_bytes
    then s.hard_cap_bytes
    else if ltb 0 (s.used_bytes + s.free_bytes)
    then s.used_bytes + s.free_bytes
    else 1

-- atoiDefault
abbrev pub count_or : ℕ → Option ℤ → ℕ
count_or def (some (pos n)) = n
count_or def _ = def

unfoldable pub atoi_default : Text → ℕ → ℕ
unfolding parse_int
atoi_default s def = count_or def (parse_int s)
