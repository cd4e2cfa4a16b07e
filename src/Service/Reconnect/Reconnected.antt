-- ===== src/Service/Reconnect/Reconnected.antt =====
-- doReconnect of internal/service/health.go: what it leaves on every branch.
use plex_mirror.Base.{Bool, ◌≡◌, ◌⊎◌, true, false, Option, none, some, Text, text_eq, is_empty}
use plex_mirror.Config.{Config, valid}
use plex_mirror.Discovery.{
  Connection, Discovered, discover, fetch_failed, no_server, token_required, server_required,
  ambiguous, no_access_token, no_connections,
}
use plex_mirror.Discovery
use plex_mirror.Discovery.Reachable.{IsResponding}
use plex_mirror.Download.Queueing.{reset_all_stale}
use plex_mirror.Settings.Store.{StoreError, Map}
use plex_mirror.Settings.Store
use plex_mirror.Service.Health.Seed.{plex}
use plex_mirror.Service.Reload.{Outside, Process, stored_settings, overlaid}
use plex_mirror.Service.Reconnect.Reported.{IsNoted, IsReported}
use plex_mirror.Service.Reconnect.{ReconnectError}

module _ (o : Outside) (p : Process) where
  -- The runtime was built again over the stored settings: from the configured URL, or from a
  -- connection of the server that responded.
  pub record IsSwapped (p' : Process) : Type 0 where
    pub settings : p'.settings ≡ p.settings
    pub table : p'.table ≡ reset_all_stale p.table
    pub config :
        (m : Map) × (stored_settings o p.settings ≡ Store.ok m)
        × (overlaid o m ≡ valid p'.live.config)
    pub connection :
        (is_empty p'.live.config.plex_url ≡ false)
        ⊎ ((d : Discovered) × (p'.live.plex ≡ some (d.base_url, d.access_token))
            × IsResponding o.probe d)

  -- What a reconnect of `name` leaves: where it fails, the runtime, the table and the settings are
  -- as they were; without an error nothing has changed, or another source than Plex was probed
  -- before the context ended, or the runtime was swapped.
  abbrev pub IsReconnected : Bool → Text → Process × Option ReconnectError → Type 0
  IsReconnected stopped name (p', some e) =
      (text_eq name plex ≡ true) × IsNoted plex p p' × IsReported p' e
  IsReconnected stopped name (p', none) =
      (p' ≡ p)
      ⊎ (((stopped ≡ false) × (text_eq name plex ≡ false) × IsNoted name p p') ⊎ IsSwapped p')

-- A connection that is given to the reload, beside a configured URL.
abbrev IsGiven : Outside → Config → Option Discovered → Type 0
IsGiven o c none = is_empty c.plex_url ≡ false
IsGiven o c (some d) = IsResponding o.probe d
