-- ===== src/Service/Reload.antt =====
-- internal/service/service.go: New, buildRuntimeWith and reloadWith.
pub mod Booting
use plex_mirror.Base.{
  ℕ, Bool, true, false, not, ◌&&◌, ◌||◌, Option, none, some, List, [], ◌∷◌, if◌then◌else◌, is_some,
  Text, codes, is_empty, trim_space,
}
use plex_mirror.Base.Int.{ℤ}
use plex_mirror.Base.Base64.{Bytes}
use plex_mirror.Items.{Table}
use plex_mirror.Download.Queueing.{reset_all_stale}
use plex_mirror.Config.{Config, ConfigError, Checked, valid, invalid}
use plex_mirror.Settings.{effective}
use plex_mirror.Settings.Crypto.{Cipher}
use plex_mirror.Settings.Store.{
  Setting, Faults, StoreError, Attempt, Map, get_all, encrypt_plaintext_secrets,
}
use plex_mirror.Settings.Store
use plex_mirror.Discovery.{Resource, Discovered, discover}
use plex_mirror.Discovery
use plex_mirror.Service.Health.{Monitor}
use plex_mirror.Service.Health.Seed.{jellyfin_configured, seed_health}

-- What lies outside: the answers of plex.tv and of the connections, url.Parse with a scheme and a
-- host, time.ParseDuration, the cipher with the store's key and its nonces, and the database.
pub record Outside : Type 0 where
  pub probe : Text → Bool
  pub resources : Config → Discovery.Result (List Resource)
  pub valid_url : Text → Bool
  pub parse_duration : Text → Option ℤ
  pub cipher : Cipher
  pub key : Bytes
  pub nonces : Text → Option Bytes
  pub faults : Faults
  pub base : Config

pub data BuildError : Type 0 where
  plex_client jellyfin_scanner engine jellyfin_client : BuildError

-- The runtime: the engine drives the Plex source, where there is one.
pub record Built : Type 0 where
  pub config : Config
  pub plex : Option (Text × Text)
  pub scanner : Bool
  pub jellyfin : Bool

pub data Outcome {ℓ} (A : Type ℓ) : Type ℓ where
  built : A → Outcome A
  failed : BuildError → Outcome A

infixl 5 ◌>>=◌ ◌>>◌
abbrev pub ◌>>=◌ {ℓ κ} : {A : Type ℓ} {B : Type κ} → Outcome A → (A → Outcome B) → Outcome B
built a >>= f = f a
failed e >>= f = failed e

abbrev pub ◌>>◌ {ℓ} : {B : Type ℓ} → Outcome (Unit {0}) → Outcome B → Outcome B
m >> k = m >>= λ _. k

abbrev pub require : Bool → BuildError → Outcome (Unit {0})
require true e = built tt
require false e = failed e

-- jellyfin.New and jellyfin.NewScanner refuse a blank URL or token.
abbrev pub jellyfin_ok : Config → Bool
jellyfin_ok c =
    not (is_empty (trim_space c.jellyfin_url)) && not (is_empty (trim_space c.jellyfin_token))

abbrev pub found : Discovery.Result Discovered → (Text × Text) × Option Discovered
found (Discovery.err e) = (([], []), none)
found (Discovery.ok d) = ((d.base_url, d.access_token), some d)

pub record Process : Type 0 where
  pub settings : List Setting
  pub table : Table
  pub live : Built
  pub monitor : Monitor

pub data ReloadError : Type 0 where
  load_failed : StoreError → ReloadError
  bad_settings : ConfigError → ReloadError
  build_failed : BuildError → ReloadError

-- Once the runtime is built: stop the workers, reset what they left, swap, and seed the health.
abbrev pub swapped : ℕ → Process → Built × Option Discovered → Process
swapped now p (b, resolved) = record p {
  table = reset_all_stale p.table;
  live = b;
  monitor = seed_health now b.config (is_some b.plex) b.jellyfin resolved p.monitor;
}

-- The process once its first runtime is built.
abbrev pub started :
    ℕ → List Setting → Table → Outcome (Built × Option Discovered) → Outcome Process
started now rows table (failed e) = failed e
started now rows table (built (b, resolved)) = built (
    swapped now
      (record {
        settings = rows;
        table = table;
        live = b;
        monitor = record { health = λ name. none; reconnect = none; kicked = false };
      })
      (b, resolved))

abbrev pub reload_built :
    ℕ → Process → Outcome (Built × Option Discovered) → Process × Option ReloadError
reload_built now p (failed e) = (p, some (build_failed e))
reload_built now p (built r) = (swapped now p r, none)

-- The Jellyfin client, and the runtime.
unfoldable pub assemble :
    Config
    → Option Discovered
    → Outcome (Option (Text × Text))
    → Outcome (Built × Option Discovered)
unfolding trim_space
assemble c resolved client = do
  plex ← client
  require (not (jellyfin_configured c) || jellyfin_ok c) jellyfin_client
  built (
    record {
      config = c;
      plex = plex;
      scanner = is_some plex && jellyfin_configured c;
      jellyfin = jellyfin_configured c;
    },
    resolved,
  )

module _ (o : Outside) where
  -- The connection to Plex: the caller's, the configured URL, or a discovered one.
  unfoldable pub resolve_plex : Config → Option Discovered → (Text × Text) × Option Discovered
  unfolding discover
  resolve_plex c (some d) = ((d.base_url, d.access_token), some d)
  resolve_plex c none =
      if is_empty c.plex_url && not (is_empty c.plex_server) && not (is_empty c.plex_token)
      then found (discover o.probe false c.plex_token c.plex_server (o.resources c))
      else ((c.plex_url, c.plex_token), none)

  -- The Plex client, the scanner and the engine.
  unfoldable pub build_plex : Config → Text × Text → Outcome (Option (Text × Text))
  unfolding trim_space
  build_plex c (url, token) =
      let client = do
        require (o.valid_url url) plex_client
        require (not (jellyfin_configured c) || jellyfin_ok c) jellyfin_scanner
        require (not (is_empty c.media_root)) engine
        built (some (url, token))
      in if is_empty url || is_empty token then built none else client

  unfoldable pub build_runtime_with :
      Config → Option Discovered → Outcome (Built × Option Discovered)
  unfolding resolve_plex build_plex assemble
  build_runtime_with c pre =
      let (connection, resolved) = resolve_plex c pre in
      assemble c resolved (build_plex c connection)

  abbrev pub stored_settings : List Setting → Attempt Map
  stored_settings rows = get_all o.cipher o.key o.faults rows

  abbrev pub overlaid : Map → Checked Config
  overlaid vals = effective o.parse_duration vals o.base

  abbrev pub reload_checked :
      ℕ → Option Discovered → Process → Checked Config → Process × Option ReloadError
  reload_checked now pre p (invalid e) = (p, some (bad_settings e))
  reload_checked now pre p (valid c) = reload_built now p (build_runtime_with c pre)

  -- reloadWith, and Reload where there is no connection given
  unfoldable pub reload_with : ℕ → Option Discovered → Process → Process × Option ReloadError
  unfolding get_all effective build_runtime_with reset_all_stale seed_health
  reload_with now pre p = elim (stored_settings p.settings) [
    | Store.err e ↦ (p, some (load_failed e))
    | Store.ok vals ↦ reload_checked now pre p (overlaid vals)
  ]

  abbrev pub or_base : Checked Config → Config
  or_base (invalid e) = o.base
  or_base (valid c) = c

  -- The settings over the environment, or the environment where they cannot be read or are invalid.
  unfoldable pub boot_config : List Setting → Config
  unfolding get_all effective
  boot_config rows = elim (stored_settings rows) [
    | Store.err e ↦ o.base
    | Store.ok vals ↦ or_base (overlaid vals)
  ]

  -- New; Start resets the stale downloads.
  unfoldable pub boot : ℕ → List Setting → Table → Outcome Process
  unfolding encrypt_plaintext_secrets boot_config build_runtime_with seed_health reset_all_stale
  boot now rows table =
      let rows' = (encrypt_plaintext_secrets o.cipher o.key o.nonces o.faults now rows).0 in
      started now rows' table (build_runtime_with (boot_config rows') none)
