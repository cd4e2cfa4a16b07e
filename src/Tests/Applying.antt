-- ===== src/Tests/Applying.antt =====
-- Runs of internal/service/settings.go and of New in internal/service/service.go.
use plex_mirror.Base.{
  ◌≡◌, refl, true, false, Option, none, some, [], Text, codes, text_eq, has_prefix,
}
use plex_mirror.Base.Int.{ℤ}
use plex_mirror.Config.{Config, valid}
use plex_mirror.Settings.{effective}
use plex_mirror.Settings.Store.{Setting, Map, SecretStatus, get_all, read_rows, read_secrets}
use plex_mirror.Settings.Store
use plex_mirror.Settings.Store.Reading.{reads}
use plex_mirror.Discovery
use plex_mirror.Service.Reload.{Outside, Process, Built, stored_settings, overlaid, or_base}
use plex_mirror.Service.Reload
use plex_mirror.Service.Settings.{ConfigUpdate, reload_after_save, apply_settings}
use plex_mirror.Service.Settings.Applying.{IsApplied, apply_settings-IsApplied}
use plex_mirror.Service.Settings.Restart.{IsRestarted, apply_settings-IsRestarted}
use plex_mirror.Service.Settings.View.{ConfigView, view_of, config_view}
use plex_mirror.Service.Settings.View.Shown.{IsShown, config_view-IsShown}
use plex_mirror.Tests.Configuring.{base, base-IsValid, seconds}
use plex_mirror.Tests.Fixtures.{table}
use plex_mirror.Tests.Sealing.{
  toy, toy-IsAead, key, nonces, nonces-IsDraw, no_faults, rows, rows-IsWellFormed,
}

abbrev pub outside : Outside
outside = record {
  probe = λ url. true;
  resources = λ c. Discovery.ok [];
  valid_url = λ url. has_prefix (codes "http://") url;
  parse_duration = seconds;
  cipher = toy;
  key = key;
  nonces = nonces;
  faults = no_faults;
  base = base;
}

-- A form with a URL of Plex, its token kept.
abbrev posts : Text → ConfigUpdate
posts url = record {
  plex_url = url;
  plex_server = [];
  plex_client_id = [];
  plex_token = [];
  clear_plex_token = false;
  jellyfin_url = [];
  jellyfin_user = [];
  jellyfin_token = [];
  clear_jellyfin_token = false;
  movies_dir = [];
  shows_dir = [];
  other_dir = [];
  storage_hard_cap = codes "5g";
  storage_soft_cap = [];
  download_concurrency = [];
  download_poll_every = [];
  download_buffer = [];
  health_check_every = [];
}

abbrev pub process : Process
process = record {
  settings = rows;
  table = table;
  live = record { config = base; plex = none; scanner = false; jellyfin = false };
  monitor = record { health = λ name. none; reconnect = none; kicked = false };
}

-- Settings that are saved and whose client cannot be built.
without_scheme :
    (apply_settings outside no_faults 3 (posts (codes "p")) process).1
    ≡ some (reload_after_save (Reload.build_failed Reload.plex_client))
unfolding apply_settings has_prefix text_eq
without_scheme = refl

with_scheme : (apply_settings outside no_faults 3 (posts (codes "http://p")) process).1 ≡ none
unfolding apply_settings has_prefix text_eq
with_scheme = refl

apply_settings-IsApplied_example :
    IsApplied outside toy-IsAead nonces-IsDraw no_faults 3
      (posts (codes "http://p"))
      process
      (apply_settings outside no_faults 3 (posts (codes "http://p")) process)
unfolding has_prefix
apply_settings-IsApplied_example =
    apply_settings-IsApplied outside toy-IsAead nonces-IsDraw no_faults 3 (posts (codes "http://p"))
      process rows-IsWellFormed refl refl

apply_settings-IsRestarted_example :
    IsRestarted outside toy-IsAead nonces-IsDraw 9 table
      (apply_settings outside no_faults 3 (posts (codes "p")) process)
unfolding has_prefix
apply_settings-IsRestarted_example =
    apply_settings-IsRestarted outside toy-IsAead nonces-IsDraw no_faults 3 9 (posts (codes "p"))
      process table refl rows-IsWellFormed refl refl

abbrev show_duration : ℤ → Text
show_duration d = codes "10s"

abbrev vals : Map
vals = reads toy key rows

abbrev running : Config
running = or_base outside (overlaid outside vals)

abbrev no_states : Text → Option SecretStatus
no_states k = none

abbrev page : ConfigView
page = view_of outside show_duration vals (read_secrets toy key no_states rows) running

reads_rows : stored_settings outside rows ≡ Store.ok vals
unfolding get_all
reads_rows = refl

runs : overlaid outside vals ≡ valid running
unfolding effective read_rows text_eq has_prefix
runs = refl

shows : config_view outside show_duration rows ≡ Store.ok page
unfolding config_view get_all
shows = refl

config_view-IsShown_example : IsShown base running page
config_view-IsShown_example =
    config_view-IsShown outside show_duration rows vals running page base-IsValid reads_rows runs
      shows
