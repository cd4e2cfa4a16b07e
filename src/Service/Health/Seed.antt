-- ===== src/Service/Health/Seed.antt =====
-- seedHealth and deleteHealth of internal/service/health.go.
pub mod Tracked
use plex_mirror.Base.{
  ℕ, ◌≡◌, ◌≢◌, refl, inl, inr, Bool, true, false, not, ◌&&◌, ◌||◌, Option, none, some, [],
  if◌then◌else◌, or_else, is_some, Text, codes, text_eq, is_empty, Bool-cases,
}
use plex_mirror.Config.{Config}
use plex_mirror.Discovery.{Discovered}
use plex_mirror.Service.Health.{
  SourceHealth, HealthError, discovery_failed, Monitor, blank, set_health, ok, down,
}

abbrev pub plex : Text
plex = codes "plex"

abbrev pub jellyfin : Text
jellyfin = codes "jellyfin"

unfoldable pub delete_health : Text → Monitor → Monitor
unfolding text_eq
delete_health name m = record m { health = λ n. if text_eq n name then none else m.health n }

-- The connection that discovery resolved, or else the URL of the configuration.
abbrev pub plex_connection : Config → Option Discovered → SourceHealth → SourceHealth
plex_connection c (some d) h = record h {
  chosen_url = d.base_url;
  relay = d.relay;
  candidates = d.candidates;
}
plex_connection c none h =
    if is_empty c.plex_url
    then h
    else record h { chosen_url = c.plex_url; relay = false; candidates = [] }

abbrev pub plex_entry : ℕ → Config → Bool → Option Discovered → SourceHealth → SourceHealth
plex_entry now c built disc h =
    let h' = record (plex_connection c disc h) { last_check = some now } in
    if built
    then record h' {
      status = ok;
      last_error = none;
      last_success = some now;
      consecutive_failures = 0;
      attempt = 0;
      next_retry_at = none;
    }
    else record h' {
      status = down;
      last_error = if is_some h'.last_error then h'.last_error else some discovery_failed;
    }

abbrev pub jellyfin_entry : ℕ → Config → Bool → SourceHealth → SourceHealth
jellyfin_entry now c built h =
    let h' = record h { chosen_url = c.jellyfin_url; last_check = some now } in
    if built
    then record h' {
      status = ok;
      last_error = none;
      last_success = some now;
      consecutive_failures = 0;
    }
    else record h' { status = down }

abbrev pub plex_configured : Config → Bool
plex_configured c =
    not (is_empty c.plex_token) && (not (is_empty c.plex_url) || not (is_empty c.plex_server))

abbrev pub jellyfin_configured : Config → Bool
jellyfin_configured c = not (is_empty c.jellyfin_url) && not (is_empty c.jellyfin_token)

-- `plex_built` and `jellyfin_built` tell whether the runtime holds the source.
unfoldable pub seed_health : ℕ → Config → Bool → Bool → Option Discovered → Monitor → Monitor
unfolding set_health delete_health
seed_health now c plex_built jellyfin_built disc m =
    let m' =
      if plex_configured c
      then set_health plex (plex_entry now c plex_built disc) m
      else delete_health plex m in
    if jellyfin_configured c
    then set_health jellyfin (jellyfin_entry now c jellyfin_built) m'
    else delete_health jellyfin m'
