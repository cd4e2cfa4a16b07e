-- ===== src/Service/Reconnect.antt =====
-- ReconnectSource and doReconnect of internal/service/health.go.
pub mod Reported
pub mod Reconnected
use plex_mirror.Base.{
  ℕ, suc, Bool, true, false, not, ◌&&◌, ◌||◌, Option, none, some, List, [], ◌∷◌, if◌then◌else◌,
  is_some, Text, codes, text_eq, is_empty,
}
use plex_mirror.Base.Int.{ℤ, pos, negsuc}
use plex_mirror.Source.{SourceError, not_found, unwrapped}
use plex_mirror.Config.{Config, ConfigError, Checked, valid, invalid}
use plex_mirror.Discovery.{Discovered, discover, fetch_failed, no_server, any_reachable}
use plex_mirror.Discovery
use plex_mirror.Settings.Store.{StoreError}
use plex_mirror.Settings.Store
use plex_mirror.Service.Health.{
  SourceHealth, Monitor, set_health, classify, probe_and_record, down, not_discovered,
  no_reachable_connection,
}
use plex_mirror.Service.Health
use plex_mirror.Service.Health.Seed.{plex, jellyfin, plex_configured}
use plex_mirror.Service.Reload.{
  Outside, Process, ReloadError, stored_settings, overlaid, reload_with,
}

pub data ReconnectError : Type 0 where
  not_tracked : ReconnectError
  load_failed : StoreError → ReconnectError
  bad_settings : ConfigError → ReconnectError
  discovery_failed : Discovery.Failure → ReconnectError
  none_reachable : ReconnectError
  reload_failed : ReloadError → ReconnectError

-- The sentinel that an error of Discover wraps: an unknown server is ErrNotFound.
abbrev pub cause : Discovery.Failure → SourceError
cause (fetch_failed e) = e
cause no_server = not_found
cause _ = unwrapped

abbrev pub note : (SourceHealth → SourceHealth) → Process → Process
note f p = record p { monitor = set_health plex f p.monitor }

abbrev pub note_undiscovered : ℕ → Discovery.Failure → SourceHealth → SourceHealth
note_undiscovered now e h = record h {
  status = classify (some (cause e));
  last_error = some (not_discovered e);
  last_check = some now;
}

abbrev pub note_unreachable : ℕ → Discovered → SourceHealth → SourceHealth
note_unreachable now d h = record h {
  status = down;
  last_error = some no_reachable_connection;
  last_check = some now;
  consecutive_failures = suc h.consecutive_failures;
  candidates = d.candidates;
}

abbrev pub note_unloaded : ℕ → SourceHealth → SourceHealth
note_unloaded now h = record h { last_error = some Health.reload_failed; last_check = some now }

abbrev pub settled : ℕ → Process × Option ReloadError → Process × Option ReconnectError
settled now (p, none) = (p, none)
settled now (p, some e) = (note (note_unloaded now) p, some (reload_failed e))

abbrev pub nanoseconds : ℤ → ℕ
nanoseconds (pos n) = n
nanoseconds (negsuc n) = 0

-- `jitter` spreads a delay, `listed` is the error of ListLibraries on a source that is built, and
-- `stopped` tells whether the context has ended by then.
module _ (o : Outside) (jitter : ℕ → ℕ) (listed : Text → Option SourceError) (stopped : Bool)
    (now : ℕ) where
  -- The probe of a source other than Plex.
  abbrev pub probed : Text → Process → Process
  probed name p = record p {
    monitor =
        (probe_and_record jitter (nanoseconds p.live.config.health_check_every) now name
          (if text_eq name jellyfin && p.live.jellyfin then some (listed name) else none) stopped
          p.monitor).0;
  }

  abbrev pub install : Option Discovered → Process → Process × Option ReconnectError
  install pre p = settled now (reload_with o now pre p)

  -- The swap is gated on a candidate that responded.
  abbrev pub gated : Discovery.Result Discovered → Process → Process × Option ReconnectError
  gated (Discovery.err e) p = (note (note_undiscovered now e) p, some (discovery_failed e))
  gated (Discovery.ok d) p =
      if any_reachable d.candidates
      then install (some d) p
      else (note (note_unreachable now d) p, some none_reachable)

  abbrev pub rediscovered : Config → Discovery.Result Discovered
  rediscovered c = discover o.probe true c.plex_token c.plex_server (o.resources c)

  abbrev pub with_config : Checked Config → Process → Process × Option ReconnectError
  with_config (invalid e) p = (p, some (bad_settings e))
  with_config (valid c) p =
      if not (plex_configured c)
      then (p, none)
      else if is_empty c.plex_url && not (is_empty c.plex_server)
      then gated (rediscovered c) p
      else install none p

  -- doReconnect of Plex
  unfoldable pub reconnect_plex : Process → Process × Option ReconnectError
  unfolding reload_with any_reachable set_health discover
  reconnect_plex p = elim (stored_settings o p.settings) [
    | Store.err e ↦ (p, some (load_failed e))
    | Store.ok vals ↦ with_config (overlaid o vals) p
  ]

  unfoldable pub do_reconnect : Text → Process → Process × Option ReconnectError
  unfolding reconnect_plex probe_and_record text_eq
  do_reconnect name p = if text_eq name plex then reconnect_plex p else (probed name p, none)

  unfoldable pub reconnect_source : Text → Process → Process × Option ReconnectError
  unfolding do_reconnect
  reconnect_source name p =
      if is_some (p.monitor.health name) then do_reconnect name p else (p, some not_tracked)
