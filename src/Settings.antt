-- ===== src/Settings.antt =====
-- Effective of internal/settings/settings.go: the stored settings over the environment's values.
pub mod Valid
pub mod Crypto
pub mod Store
use plex_mirror.Base.{
  Option, none, some, List, [], ◌∷◌, if◌then◌else◌, or_else, Text, codes, is_empty, trim_space,
  text_eq,
}
use plex_mirror.Base.Int.{ℤ}
use plex_mirror.Config.{
  Config, Checked, valid, invalid, ◌>>=◌, check_dir, check_size, check_buffer, check_concurrency,
  check_duration, check_caps,
}

-- A setting that is present, also an empty one.
unfoldable pub when_present : Option Text → ℤ → (Text → Checked ℤ) → Checked ℤ
when_present none base check = valid base
when_present (some v) base check = check v

-- A setting that is present and not blank; a blank one keeps the base.
unfoldable pub when_filled {ℓ} : {A : Type ℓ} → Option Text → A → (Text → Checked A) → Checked A
unfolding trim_space
when_filled none base check = valid base
when_filled (some v) base check = if is_empty (trim_space v) then valid base else check v

module _ (parse_duration : Text → Option ℤ) (vals : Text → Option Text) (base : Config) where
  unfoldable pub effective : Checked Config
  unfolding when_present when_filled trim_space check_dir check_size check_buffer check_concurrency
      check_duration check_caps
  effective = do
    hard ←
        when_present (vals (codes "storage.hard_cap")) base.storage_hard_cap_bytes
          (check_size (codes "storage.hard_cap"))
    soft ←
        when_present (vals (codes "storage.soft_cap")) base.storage_soft_cap_bytes
          (check_size (codes "storage.soft_cap"))
    concurrency ←
        when_filled (vals (codes "download.concurrency")) base.download_concurrency
          (λ v. check_concurrency (trim_space v))
    poll ←
        when_filled (vals (codes "download.poll_every")) base.download_poll_every
          (λ v. check_duration parse_duration (codes "download.poll_every") (trim_space v))
    buffer ←
        when_filled (vals (codes "download.buffer")) base.download_buffer_bytes
          (check_buffer (codes "download.buffer"))
    health ←
        when_filled (vals (codes "health.check_every")) base.health_check_every
          (λ v. check_duration parse_duration (codes "health.check_every") (trim_space v))
    movies ←
        when_filled (vals (codes "library.movies_dir")) base.movies_dir
          (λ v. check_dir (codes "library.movies_dir") (trim_space v))
    shows ←
        when_filled (vals (codes "library.shows_dir")) base.shows_dir
          (λ v. check_dir (codes "library.shows_dir") (trim_space v))
    other ←
        when_filled (vals (codes "library.other_dir")) base.other_dir
          (λ v. check_dir (codes "library.other_dir") (trim_space v))
    within ← check_caps hard soft
    valid (record base {
      plex_url = or_else base.plex_url (vals (codes "plex.url"));
      plex_token = or_else base.plex_token (vals (codes "plex.token"));
      plex_server = or_else base.plex_server (vals (codes "plex.server"));
      plex_client_id = or_else base.plex_client_id (vals (codes "plex.client_id"));
      jellyfin_url = or_else base.jellyfin_url (vals (codes "jellyfin.url"));
      jellyfin_token = or_else base.jellyfin_token (vals (codes "jellyfin.token"));
      jellyfin_user = or_else base.jellyfin_user (vals (codes "jellyfin.user"));
      storage_hard_cap_bytes = hard;
      storage_soft_cap_bytes = soft;
      download_concurrency = concurrency;
      download_poll_every = poll;
      download_buffer_bytes = buffer;
      health_check_every = health;
      movies_dir = movies;
      shows_dir = shows;
      other_dir = other;
    })
