-- ===== src/Service/Settings.antt =====
-- internal/service/settings.go: the form of the settings page, its view, and ApplySettings.
pub mod Applying
pub mod View
pub mod Restart
use plex_mirror.Base.{
  ℕ, Bool, true, false, not, ◌&&◌, Option, none, some, List, [], ◌∷◌, ◌++◌, if◌then◌else◌, Text,
  codes, text_eq, is_empty, trim_space, or_else,
}
use plex_mirror.Base.Int.{ℤ, pos, negsuc}
use plex_mirror.Base.Decimal.{show_nat}
use plex_mirror.Config.{Config, ConfigError, Checked, valid, invalid}
use plex_mirror.Settings.{effective}
use plex_mirror.Settings.Crypto.{is_nil}
use plex_mirror.Settings.Store.{
  Setting, Faults, StoreError, Attempt, Map, set_many, secret_state, SecretStatus, set, unset,
  unreadable,
}
use plex_mirror.Settings.Store
use plex_mirror.Settings.Store.Writing.{copy_into}
use plex_mirror.Service.Reload.{
  Outside, Process, ReloadError, stored_settings, overlaid, or_base, reload_with,
}

pub record ConfigUpdate : Type 0 where
  pub plex_url : Text
  pub plex_server : Text
  pub plex_client_id : Text
  pub plex_token : Text
  pub clear_plex_token : Bool
  pub jellyfin_url : Text
  pub jellyfin_user : Text
  pub jellyfin_token : Text
  pub clear_jellyfin_token : Bool
  pub movies_dir : Text
  pub shows_dir : Text
  pub other_dir : Text
  pub storage_hard_cap : Text
  pub storage_soft_cap : Text
  pub download_concurrency : Text
  pub download_poll_every : Text
  pub download_buffer : Text
  pub health_check_every : Text

-- applySecretToSet
unfoldable pub apply_secret : Text → Text → Bool → List (Text × Text)
apply_secret key value clear =
    if clear then (key, []) ∷ [] else if is_empty value then [] else (key, value) ∷ []

-- The fields that the form always posts.
unfoldable pub plain_entries : ConfigUpdate → List (Text × Text)
unfolding trim_space
plain_entries up =
    (codes "plex.url", up.plex_url)
    ∷ (codes "plex.server", up.plex_server)
    ∷ (codes "plex.client_id", up.plex_client_id)
    ∷ (codes "jellyfin.url", up.jellyfin_url)
    ∷ (codes "jellyfin.user", up.jellyfin_user)
    ∷ (codes "library.movies_dir", trim_space up.movies_dir)
    ∷ (codes "library.shows_dir", trim_space up.shows_dir)
    ∷ (codes "library.other_dir", trim_space up.other_dir)
    ∷ (codes "storage.hard_cap", trim_space up.storage_hard_cap)
    ∷ (codes "storage.soft_cap", trim_space up.storage_soft_cap)
    ∷ (codes "download.concurrency", trim_space up.download_concurrency)
    ∷ (codes "download.poll_every", trim_space up.download_poll_every)
    ∷ (codes "download.buffer", trim_space up.download_buffer)
    ∷ (codes "health.check_every", trim_space up.health_check_every)
    ∷ []

-- The entries to write; the keys are distinct, so the order in which the map is visited is free.
unfoldable pub to_set : ConfigUpdate → List (Text × Text)
unfolding plain_entries apply_secret
to_set up =
    plain_entries up
    ++ apply_secret (codes "plex.token") up.plex_token up.clear_plex_token
    ++ apply_secret (codes "jellyfin.token") up.jellyfin_token up.clear_jellyfin_token

pub data ApplyError : Type 0 where
  load_failed : StoreError → ApplyError
  rejected : ConfigError → ApplyError
  save_failed : StoreError → ApplyError
  reload_after_save : ReloadError → ApplyError

abbrev pub reloaded : Process × Option ReloadError → Process × Option ApplyError
reloaded (p, none) = (p, none)
reloaded (p, some e) = (p, some (reload_after_save e))

-- `later` is what the database refuses by the time of the reload.
module _ (o : Outside) (later : Faults) (now : ℕ) where
  -- Once the rows are written, or not.
  abbrev pub saved : Process → List Setting × Attempt (Unit {0}) → Process × Option ApplyError
  saved p (rows, Store.err e) = (record p { settings = rows }, some (save_failed e))
  saved p (rows, Store.ok done) =
      reloaded (reload_with (record o { faults = later }) now none (record p { settings = rows }))

  abbrev pub save : List (Text × Text) → Process → Checked Config → Process × Option ApplyError
  save kv p (invalid e) = (p, some (rejected e))
  save kv p (valid c) = saved p (set_many o.cipher o.key o.nonces o.faults now kv p.settings)

  unfoldable pub apply_settings : ConfigUpdate → Process → Process × Option ApplyError
  unfolding to_set set_many reload_with
  apply_settings up p = elim (stored_settings o p.settings) [
    | Store.err e ↦ (p, some (load_failed e))
    | Store.ok cur ↦ save (to_set up) p (overlaid o (copy_into (to_set up) cur))
  ]
