-- ===== src/Tests/Browsing.antt =====
-- Runs of internal/server: the badges, the authentication and the gauge.
use plex_mirror.Base.{
  ◌<◌, ◌≡◌, ◌↔◌, refl, true, false, none, some, ◌++◌, arith, All, Text, codes, text_eq,
}
use plex_mirror.Items.{has_key, find, error}
use plex_mirror.Storage.{used_bytes}
use plex_mirror.Storage.Eviction.{eviction_target}
use plex_mirror.Service.Queries.{StorageStats, storage_stats}
use plex_mirror.Portal.{find_mirror, status_map, item_queueable, over_cap, gauge_max}
use plex_mirror.Portal.Badges.{unless_evicted, status_of, IsIdle, portal_shows}
use plex_mirror.Portal.Auth.{
  Request, served, see_login, incorrect_token, bearer_prefix, require_auth, portal_auth,
  is_cookie_byte, login_post, logout,
}
use plex_mirror.Portal.Auth.Session.{HasToken, without_header, session_serves}
use plex_mirror.Portal.Gauge.{gauge_warns_iff}
use plex_mirror.Tests.Fixtures.{table, table-IsWellFormed, policy}

failed_badge : status_map (codes "plex") table (codes "c") ≡ some error
unfolding status_map text_eq
failed_badge = refl

portal_shows_example :
    (find_mirror (codes "plex") (codes "c") table
      ≡ unless_evicted (find (has_key (codes "plex") (codes "c")) table.rows))
    × (status_map (codes "plex") table (codes "c")
        ≡ status_of (unless_evicted (find (has_key (codes "plex") (codes "c")) table.rows)))
    × ((item_queueable true (status_map (codes "plex") table (codes "c")) ≡ true)
        ↔ IsIdle (find (has_key (codes "plex") (codes "c")) table.rows))
portal_shows_example = portal_shows (codes "plex") (codes "c") table table-IsWellFormed

abbrev token : Text
token = codes "a;b"

abbrev visit : Request
visit = record { cookie = some (codes "ab"); authorization = codes "Bearer a;b" }

-- A token with a semicolon: the right one is accepted, and the portal still asks for it.
accepted : portal_auth token (without_header (login_post token token none).1) ≡ see_login
unfolding portal_auth login_post
accepted = refl

session_serves_example :
    ((portal_auth token visit ≡ served) ↔ HasToken token visit)
    × ((require_auth token visit ≡ served) ↔ (codes "Bearer a;b" ≡ bearer_prefix ++ token))
    × (¬ (codes "ab" ≡ token)
        → login_post token (codes "ab") visit.cookie ≡ (incorrect_token, visit.cookie))
    × ((portal_auth token (without_header (login_post token token visit.cookie).1) ≡ served)
        ↔ All (λ c. is_cookie_byte c ≡ true) token)
    × ¬ (portal_auth token (without_header (logout visit.cookie).1) ≡ served)
session_serves_example = session_serves token (codes "ab") visit refl

abbrev stats : StorageStats
stats = record {
  media_root = policy.media_root;
  used_bytes = 110;
  free_bytes = 7;
  hard_cap_bytes = policy.hard_cap_bytes;
  soft_cap_bytes = policy.soft_cap_bytes;
  items_ready = 2;
}

stats_of : storage_stats policy (some 7) table ≡ some stats
unfolding storage_stats
stats_of = refl

gauge_warns_iff_example :
    ((over_cap stats ≡ false) ↔ (eviction_target policy (used_bytes table) ≡ none))
    × (0 < gauge_max stats)
gauge_warns_iff_example = gauge_warns_iff policy 7 table stats (λ h k. omega arith) stats_of
