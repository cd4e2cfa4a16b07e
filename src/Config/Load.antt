-- ===== src/Config/Load.antt =====
-- Load of internal/config/config.go. The environment maps names to values.
pub mod Valid
use plex_mirror.Base.{
  Bool, true, false, ◌||◌, Option, none, some, List, [], ◌∷◌, if◌then◌else◌, or_else, Text, codes,
  text_eq, is_empty, trim_space, to_lower,
}
use plex_mirror.Base.Int.{ℤ}
use plex_mirror.Config.{
  Config, Checked, valid, invalid, ◌>>=◌, bad_log_level, check_dir, check_size, check_buffer,
  check_concurrency, check_duration, check_caps,
}

module _ (env : Text → Option Text) where
  -- os.Getenv
  abbrev pub getenv : Text → Text
  getenv key = or_else [] (env key)

  -- envDefault
  unfoldable pub env_default : Text → Text → Text
  env_default key fallback = elim (env key) [
    | none ↦ fallback
    | some v ↦ if is_empty v then fallback else v
  ]

  abbrev pub is_log_level : Text → Bool
  is_log_level level =
      text_eq level (codes "debug")
      || text_eq level (codes "info")
      || text_eq level (codes "warn")
      || text_eq level (codes "error")

  abbrev pub dir : Text → Text → Checked Text
  dir key fallback = check_dir key (trim_space (env_default key fallback))

  abbrev pub size : Text → Text → Checked ℤ
  size key fallback = check_size key (env_default key fallback)

  abbrev pub duration : (Text → Option ℤ) → Text → Text → Checked ℤ
  duration parse_duration key fallback =
      check_duration parse_duration key (env_default key fallback)

  -- What follows the check of the log level.
  unfoldable pub load_values : (Text → Option ℤ) → Text → Checked Config
  unfolding env_default trim_space check_dir check_size check_buffer check_concurrency
      check_duration check_caps
  load_values parse_duration log_level = do
    movies ← dir (codes "PLEXMIRROR_MOVIES_DIR") (codes "movies")
    shows ← dir (codes "PLEXMIRROR_SHOWS_DIR") (codes "shows")
    other ← dir (codes "PLEXMIRROR_OTHER_DIR") (codes "other")
    hard ← size (codes "PLEXMIRROR_STORAGE_HARD_CAP") (codes "0")
    soft ← size (codes "PLEXMIRROR_STORAGE_SOFT_CAP") (codes "0")
    within ← check_caps hard soft
    sweep ← duration parse_duration (codes "PLEXMIRROR_STORAGE_SWEEP_EVERY") (codes "5m")
    concurrency ←
        check_concurrency (env_default (codes "PLEXMIRROR_DOWNLOAD_CONCURRENCY") (codes "2"))
    poll ← duration parse_duration (codes "PLEXMIRROR_DOWNLOAD_POLL_EVERY") (codes "10s")
    health ← duration parse_duration (codes "PLEXMIRROR_HEALTH_CHECK_EVERY") (codes "30s")
    buffer ←
        check_buffer (codes "PLEXMIRROR_DOWNLOAD_BUFFER")
          (env_default (codes "PLEXMIRROR_DOWNLOAD_BUFFER") (codes "1M"))
    valid (record {
      http_addr = env_default (codes "PLEXMIRROR_HTTP_ADDR") (codes ":8080");
      db_path = env_default (codes "PLEXMIRROR_DB_PATH") (codes "/var/lib/plex-mirror/state.db");
      media_root = env_default (codes "PLEXMIRROR_MEDIA_ROOT") (codes "/media");
      log_level = log_level;
      plex_url = getenv (codes "PLEXMIRROR_PLEX_URL");
      plex_token = getenv (codes "PLEXMIRROR_PLEX_TOKEN");
      plex_server = getenv (codes "PLEXMIRROR_PLEX_SERVER");
      plex_client_id = getenv (codes "PLEXMIRROR_PLEX_CLIENT_ID");
      jellyfin_url = getenv (codes "PLEXMIRROR_JELLYFIN_URL");
      jellyfin_token = getenv (codes "PLEXMIRROR_JELLYFIN_TOKEN");
      jellyfin_user = getenv (codes "PLEXMIRROR_JELLYFIN_USER");
      auth_token = getenv (codes "PLEXMIRROR_AUTH_TOKEN");
      secret_key = getenv (codes "PLEXMIRROR_SECRET_KEY");
      movies_dir = movies;
      shows_dir = shows;
      other_dir = other;
      storage_hard_cap_bytes = hard;
      storage_soft_cap_bytes = soft;
      storage_sweep_every = sweep;
      download_concurrency = concurrency;
      download_poll_every = poll;
      health_check_every = health;
      download_buffer_bytes = buffer;
    })

  unfoldable pub load : (Text → Option ℤ) → Checked Config
  unfolding env_default text_eq to_lower load_values
  load parse_duration =
      let log_level = env_default (codes "PLEXMIRROR_LOG_LEVEL") (codes "info") in
      if is_log_level (to_lower log_level)
      then load_values parse_duration log_level
      else invalid bad_log_level
