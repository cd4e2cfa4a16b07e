-- ===== src/Settings/Valid.antt =====
-- Effective of internal/settings/settings.go over what Load of internal/config/config.go returns.
use plex_mirror.Base.{
  ◌≡◌, inl, inr, false, Option, none, some, Text, Bool-cases, codes, trim_space, is_empty,
}
use plex_mirror.Base.Int.{ℤ}
use plex_mirror.Config.{Config, Checked, valid, soft_exceeds}
use plex_mirror.Config.Load.{load}
use plex_mirror.Config.Load.Valid.{load-Ensures}
use plex_mirror.Config.Valid.{
  IsDir, IsCount, IsDuration, IsConcurrency, IsBuffer, IsValid, Ensures, Ensures-bind,
  Ensures-valid, check_dir-IsDir, check_size-IsCount, check_caps-within, check_duration-IsDuration,
  check_concurrency-IsConcurrency, check_buffer-IsBuffer,
}
use plex_mirror.Settings.{when_present, when_filled, effective}

when_present-Ensures {κ} :
    (P : ℤ → Type κ) (o : Option Text) (base : ℤ) (check : Text → Checked ℤ)
    → P base
    → ((v : Text) → Ensures P (check v))
    → Ensures P (when_present o base check)
unfolding when_present
when_present-Ensures P none base check p h = p
when_present-Ensures P (some v) base check p h = h v

when_filled-Ensures {ℓ κ} :
    {A : Type ℓ} (P : A → Type κ) (o : Option Text) (base : A) (check : Text → Checked A)
    → P base
    → ((v : Text) → Ensures P (check v))
    → Ensures P (when_filled o base check)
unfolding when_filled
when_filled-Ensures P none base check p h = p
when_filled-Ensures P (some v) base check p h = elim (Bool-cases (is_empty (trim_space v))) [
  | inl e ↦ rw e p
  | inr e ↦ rw e (h v)
]

effective-Ensures :
    (parse_duration : Text → Option ℤ) (vals : Text → Option Text) (base : Config)
    → IsValid base
    → Ensures IsValid (effective parse_duration vals base)
unfolding effective
effective-Ensures parse_duration vals base base_w =
    Ensures-bind IsCount IsValid _ _
      (when_present-Ensures IsCount (vals (codes "storage.hard_cap")) base.storage_hard_cap_bytes _
        base_w.hard_cap (λ v. check_size-IsCount (codes "storage.hard_cap") v))
      (λ hard hard_w.
        Ensures-bind IsCount IsValid _ _
          (when_present-Ensures IsCount (vals (codes "storage.soft_cap"))
            base.storage_soft_cap_bytes _ base_w.soft_cap
            (λ v. check_size-IsCount (codes "storage.soft_cap") v))
          (λ soft soft_w.
            Ensures-bind IsConcurrency IsValid _ _
              (when_filled-Ensures IsConcurrency (vals (codes "download.concurrency"))
                base.download_concurrency _ base_w.concurrency
                (λ v. check_concurrency-IsConcurrency (trim_space v)))
              (λ concurrency concurrency_w.
                Ensures-bind IsDuration IsValid _ _
                  (when_filled-Ensures IsDuration (vals (codes "download.poll_every"))
                    base.download_poll_every _ base_w.poll_every
                    (λ v.
                      check_duration-IsDuration parse_duration (codes "download.poll_every")
                        (trim_space v)))
                  (λ poll poll_w.
                    Ensures-bind IsBuffer IsValid _ _
                      (when_filled-Ensures IsBuffer (vals (codes "download.buffer"))
                        base.download_buffer_bytes _ base_w.buffer
                        (λ v. check_buffer-IsBuffer (codes "download.buffer") v))
                      (λ buffer buffer_w.
                        Ensures-bind IsDuration IsValid _ _
                          (when_filled-Ensures IsDuration (vals (codes "health.check_every"))
                            base.health_check_every _ base_w.health_every
                            (λ v.
                              check_duration-IsDuration parse_duration (codes "health.check_every")
                                (trim_space v)))
                          (λ health health_w.
                            Ensures-bind IsDir IsValid _ _
                              (when_filled-Ensures IsDir (vals (codes "library.movies_dir"))
                                base.movies_dir _ base_w.movies_dir
                                (λ v. check_dir-IsDir (codes "library.movies_dir") (trim_space v)))
                              (λ movies movies_w.
                                Ensures-bind IsDir IsValid _ _
                                  (when_filled-Ensures IsDir (vals (codes "library.shows_dir"))
                                    base.shows_dir _ base_w.shows_dir
                                    (λ v.
                                      check_dir-IsDir (codes "library.shows_dir") (trim_space v)))
                                  (λ shows shows_w.
                                    Ensures-bind IsDir IsValid _ _
                                      (when_filled-Ensures IsDir (vals (codes "library.other_dir"))
                                        base.other_dir _ base_w.other_dir
                                        (λ v.
                                          check_dir-IsDir (codes "library.other_dir")
                                            (trim_space v)))
                                      (λ other other_w.
                                        Ensures-bind (λ _. soft_exceeds hard soft ≡ false) IsValid _
                                          _ (check_caps-within hard soft)
                                          (λ within within_w. record {
                                            movies_dir = movies_w;
                                            shows_dir = shows_w;
                                            other_dir = other_w;
                                            hard_cap = hard_w;
                                            soft_cap = soft_w;
                                            caps = within_w;
                                            sweep_every = base_w.sweep_every;
                                            concurrency = concurrency_w;
                                            poll_every = poll_w;
                                            health_every = health_w;
                                            buffer = buffer_w;
                                          }))))))))))

-- Every configuration that the program runs with is valid, whatever the environment and the stored
-- settings are: the one that Load accepts, and the one that Effective accepts over it. Its library
-- directories are single safe folder names, its sizes are counts in the range of int64 with no soft
-- cap above the hard one, the buffer is within its ceiling, the concurrency is from 1 to 32 and no
-- duration is negative.
pub running_config-IsValid :
    (env vals : Text → Option Text) (parse_duration : Text → Option ℤ) (base running : Config)
    → load env parse_duration ≡ valid base
    → effective parse_duration vals base ≡ valid running
    → IsValid base × IsValid running
running_config-IsValid env vals parse_duration base running e f =
    let base_w =
      Ensures-valid IsValid (load env parse_duration) base (load-Ensures env parse_duration) e in
    (
      base_w,
      Ensures-valid IsValid (effective parse_duration vals base) running
          (effective-Ensures parse_duration vals base base_w) f,
    )
