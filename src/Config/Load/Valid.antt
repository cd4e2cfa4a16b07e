-- ===== src/Config/Load/Valid.antt =====
-- Load of internal/config/config.go returns valid configurations only.
use plex_mirror.Base.{◌≡◌, inl, inr, false, Option, Text, Bool-cases, codes, trim_space, to_lower}
use plex_mirror.Base.Int.{ℤ}
use plex_mirror.Config.{soft_exceeds}
use plex_mirror.Config.Load.{env_default, load_values, load, is_log_level}
use plex_mirror.Config.Valid.{
  IsDir, IsCount, IsDuration, IsConcurrency, IsBuffer, IsValid, Ensures, Ensures-bind,
  check_dir-IsDir, check_size-IsCount, check_caps-within, check_duration-IsDuration,
  check_concurrency-IsConcurrency, check_buffer-IsBuffer,
}

module _ (env : Text → Option Text) (parse_duration : Text → Option ℤ) where
  load_values-IsValid :
      (log_level : Text) → Ensures IsValid (load_values env parse_duration log_level)
  unfolding load_values
  load_values-IsValid log_level =
      Ensures-bind IsDir IsValid _ _
        (check_dir-IsDir (codes "PLEXMIRROR_MOVIES_DIR")
          (trim_space (env_default env (codes "PLEXMIRROR_MOVIES_DIR") (codes "movies"))))
        (λ movies movies_w.
          Ensures-bind IsDir IsValid _ _
            (check_dir-IsDir (codes "PLEXMIRROR_SHOWS_DIR")
              (trim_space (env_default env (codes "PLEXMIRROR_SHOWS_DIR") (codes "shows"))))
            (λ shows shows_w.
              Ensures-bind IsDir IsValid _ _
                (check_dir-IsDir (codes "PLEXMIRROR_OTHER_DIR")
                  (trim_space (env_default env (codes "PLEXMIRROR_OTHER_DIR") (codes "other"))))
                (λ other other_w.
                  Ensures-bind IsCount IsValid _ _
                    (check_size-IsCount (codes "PLEXMIRROR_STORAGE_HARD_CAP")
                      (env_default env (codes "PLEXMIRROR_STORAGE_HARD_CAP") (codes "0")))
                    (λ hard hard_w.
                      Ensures-bind IsCount IsValid _ _
                        (check_size-IsCount (codes "PLEXMIRROR_STORAGE_SOFT_CAP")
                          (env_default env (codes "PLEXMIRROR_STORAGE_SOFT_CAP") (codes "0")))
                        (λ soft soft_w.
                          Ensures-bind (λ _. soft_exceeds hard soft ≡ false) IsValid _ _
                            (check_caps-within hard soft)
                            (λ within within_w.
                              Ensures-bind IsDuration IsValid _ _
                                (check_duration-IsDuration parse_duration
                                  (codes "PLEXMIRROR_STORAGE_SWEEP_EVERY")
                                  (env_default env (codes "PLEXMIRROR_STORAGE_SWEEP_EVERY")
                                    (codes "5m")))
                                (λ sweep sweep_w.
                                  Ensures-bind IsConcurrency IsValid _ _
                                    (check_concurrency-IsConcurrency (
                                      env_default env (codes "PLEXMIRROR_DOWNLOAD_CONCURRENCY")
                                        (codes "2")))
                                    (λ concurrency concurrency_w.
                                      Ensures-bind IsDuration IsValid _ _
                                        (check_duration-IsDuration parse_duration
                                          (codes "PLEXMIRROR_DOWNLOAD_POLL_EVERY")
                                          (env_default env (codes "PLEXMIRROR_DOWNLOAD_POLL_EVERY")
                                            (codes "10s")))
                                        (λ poll poll_w.
                                          Ensures-bind IsDuration IsValid _ _
                                            (check_duration-IsDuration parse_duration
                                              (codes "PLEXMIRROR_HEALTH_CHECK_EVERY")
                                              (env_default env
                                                (codes "PLEXMIRROR_HEALTH_CHECK_EVERY")
                                                (codes "30s")))
                                            (λ health health_w.
                                              Ensures-bind IsBuffer IsValid _ _
                                                (check_buffer-IsBuffer
                                                  (codes "PLEXMIRROR_DOWNLOAD_BUFFER")
                                                  (env_default env
                                                    (codes "PLEXMIRROR_DOWNLOAD_BUFFER")
                                                    (codes "1M")))
                                                (λ buffer buffer_w. record {
                                                  movies_dir = movies_w;
                                                  shows_dir = shows_w;
                                                  other_dir = other_w;
                                                  hard_cap = hard_w;
                                                  soft_cap = soft_w;
                                                  caps = within_w;
                                                  sweep_every = sweep_w;
                                                  concurrency = concurrency_w;
                                                  poll_every = poll_w;
                                                  health_every = health_w;
                                                  buffer = buffer_w;
                                                })))))))))))

  pub load-Ensures : Ensures IsValid (load env parse_duration)
  unfolding load
  load-Ensures =
      elim (Bool-cases (
        is_log_level env
          (to_lower (env_default env (codes "PLEXMIRROR_LOG_LEVEL") (codes "info"))))) [
            | inl h ↦ rw h (
                load_values-IsValid (env_default env (codes "PLEXMIRROR_LOG_LEVEL") (codes "info")))
            | inr h ↦ rw h tt
          ]
