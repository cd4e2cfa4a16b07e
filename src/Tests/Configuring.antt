-- ===== src/Tests/Configuring.antt =====
-- Runs of internal/config/config.go and internal/settings/settings.go.
use plex_mirror.Base.{
  ◌≡◌, ◌^◌, ◌*◌, refl, Option, none, some, [], Text, codes, text_eq, if◌then◌else◌,
}
use plex_mirror.Base.Int.{ℤ, pos}
use plex_mirror.Config.{Config, valid, ok, err, parse_size, too_large}
use plex_mirror.Config.Load.{load}
use plex_mirror.Config.Valid.{IsValid}
use plex_mirror.Settings.{effective}
use plex_mirror.Settings.Valid.{running_config-IsValid}

ten_gigabytes : parse_size (codes " 10gb") ≡ ok (pos (10 * 2 ^ 30))
unfolding parse_size
ten_gigabytes = refl

-- 2 ^ 23 terabytes are 2 ^ 63 bytes.
too_many : parse_size (codes "8388608T") ≡ err too_large
unfolding parse_size
too_many = refl

abbrev unset : Text → Option Text
unset key = none

abbrev pub seconds : Text → Option ℤ
seconds text = some (pos 10)

abbrev cap_set : Text → Option Text
cap_set key = if text_eq key (codes "storage.hard_cap") then some (codes "5M") else none

abbrev pub base : Config
base = record {
  http_addr = codes ":8080";
  db_path = codes "/var/lib/plex-mirror/state.db";
  media_root = codes "/media";
  log_level = codes "info";
  plex_url = [];
  plex_token = [];
  plex_server = [];
  plex_client_id = [];
  jellyfin_url = [];
  jellyfin_token = [];
  jellyfin_user = [];
  auth_token = [];
  secret_key = [];
  movies_dir = codes "movies";
  shows_dir = codes "shows";
  other_dir = codes "other";
  storage_hard_cap_bytes = pos 0;
  storage_soft_cap_bytes = pos 0;
  storage_sweep_every = pos 10;
  download_concurrency = pos 2;
  download_poll_every = pos 10;
  health_check_every = pos 10;
  download_buffer_bytes = pos (2 ^ 20);
}

abbrev capped : Config
capped = record base { storage_hard_cap_bytes = pos (5 * 2 ^ 20) }

base_loads : load unset seconds ≡ valid base
unfolding load
base_loads = refl

capped_runs : effective seconds cap_set base ≡ valid capped
unfolding effective text_eq
capped_runs = refl

running_config-IsValid_example : IsValid base × IsValid capped
running_config-IsValid_example =
    running_config-IsValid unset cap_set seconds base capped base_loads capped_runs

pub base-IsValid : IsValid base
base-IsValid = (running_config-IsValid unset cap_set seconds base capped base_loads capped_runs).0
