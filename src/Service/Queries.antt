-- ===== src/Service/Queries.antt =====
-- DownloadStatus, ListMirrored and StorageStats of internal/service/mirror.go.
use mathlib.Core.List.{reverse}
use plex_mirror.Base.{
  ℕ, suc, Bool, true, false, ◌&&◌, ◌||◌, Option, none, some, List, [], ◌∷◌, keep, if◌then◌else◌,
  Text, is_empty, has_prefix, to_lower,
}
use plex_mirror.Items.{Row, Table, Status, queued, downloading, error, is_ready}
use plex_mirror.Items.Sorting.{sort_rows}
use plex_mirror.Storage.{Policy, used_bytes}
use plex_mirror.Service.{Result, ok, ◌>>=◌, item_by_id}

-- status IN ('queued', 'downloading', 'error')
abbrev pub is_in_flight : Status → Bool
is_in_flight queued = true
is_in_flight downloading = true
is_in_flight error = true
is_in_flight _ = false

-- DownloadStatus without an id: ORDER BY queued_at ASC, id ASC
unfoldable pub in_flight : Table → List Row
unfolding sort_rows keep
in_flight t = sort_rows (λ r. r.queued_at) (keep (λ r. is_in_flight r.status) t.rows)

unfoldable pub download_status : Option ℕ → Table → Result (List Row)
unfolding in_flight item_by_id
download_status none t = ok (in_flight t)
download_status (some id) t = do r ← item_by_id id t; ok (r ∷ [])

-- instr(s, p) > 0
unfoldable pub contains : Text → Text → Bool
unfolding has_prefix
contains p [] = is_empty p
contains p (c ∷ cs) = has_prefix p (c ∷ cs) || contains p cs

-- A column in an ORDER BY: NULL is below every value.
abbrev pub nulls_first : Option ℕ → ℕ
nulls_first none = 0
nulls_first (some n) = suc n

abbrev pub is_listed : Text → Row → Bool
is_listed filter r =
    is_ready r.status && (is_empty filter || contains (to_lower filter) (to_lower r.title))

-- ListMirrored: ORDER BY completed_at DESC, id DESC
unfoldable pub list_mirrored : Text → Table → List Row
unfolding sort_rows keep contains to_lower
list_mirrored filter t =
    reverse (sort_rows (λ r. nulls_first r.completed_at) (keep (is_listed filter) t.rows))

pub record StorageStats : Type 0 where
  pub media_root : Text
  pub used_bytes : ℕ
  pub free_bytes : ℕ
  pub hard_cap_bytes : ℕ
  pub soft_cap_bytes : ℕ
  pub items_ready : ℕ

-- SELECT COUNT(1) FROM items WHERE status = 'ready'
unfoldable pub count_ready : List Row → ℕ
count_ready [] = 0
count_ready (r ∷ rs) = let rest = count_ready rs in if is_ready r.status then suc rest else rest

-- StorageStats: `free` is what statfs gives, none where it fails.
unfoldable pub storage_stats : Policy → Option ℕ → Table → Option StorageStats
unfolding used_bytes count_ready
storage_stats policy free t = elim free [
  | none ↦ none
  | some n ↦ some (record {
    media_root = policy.media_root;
    used_bytes = used_bytes t;
    free_bytes = n;
    hard_cap_bytes = policy.hard_cap_bytes;
    soft_cap_bytes = policy.soft_cap_bytes;
    items_ready = count_ready t.rows;
  })
]
