-- ===== src/Service/Settings/View/Sizes.antt =====
-- The sizes that Effective of internal/settings/settings.go takes over.
use plex_mirror.Base.{◌≡◌, refl, Option, Text, codes, trim_space}
use plex_mirror.Base.Int.{ℤ}
use plex_mirror.Config.{
  Config, Checked, valid, invalid, ◌>>=◌, check_size, check_caps, check_concurrency, check_duration,
  check_dir, check_buffer,
}
use plex_mirror.Config.Valid.{Ensures}
use plex_mirror.Settings.{when_present, when_filled, effective}
use plex_mirror.Settings.Store.{Map}

-- What a check gave is what the rest starts from.
Ensures-known {ℓ κ} :
    {A : Type ℓ} {B : Type 0} (Q : B → Type κ) (m : Checked A) (f : A → Checked B)
    → ((a : A) → m ≡ valid a → Ensures Q (f a))
    → Ensures Q (m >>= f)
Ensures-known Q (valid a) f k = k a refl
Ensures-known Q (invalid e) f k = tt

module _ (parse_duration : Text → Option ℤ) (vals : Map) (base : Config) where
  abbrev pub hard_cap : Checked ℤ
  hard_cap =
      when_present (vals (codes "storage.hard_cap")) base.storage_hard_cap_bytes
        (check_size (codes "storage.hard_cap"))

  abbrev pub soft_cap : Checked ℤ
  soft_cap =
      when_present (vals (codes "storage.soft_cap")) base.storage_soft_cap_bytes
        (check_size (codes "storage.soft_cap"))

  abbrev pub buffer_size : Checked ℤ
  buffer_size =
      when_filled (vals (codes "download.buffer")) base.download_buffer_bytes
        (check_buffer (codes "download.buffer"))

  -- Where the caps and the buffer of an overlay come from.
  pub record Sizes (c : Config) : Type 0 where
    pub hard : hard_cap ≡ valid c.storage_hard_cap_bytes
    pub soft : soft_cap ≡ valid c.storage_soft_cap_bytes
    pub buffer : buffer_size ≡ valid c.download_buffer_bytes

  pub effective-Sizes : Ensures Sizes (effective parse_duration vals base)
  unfolding effective
  effective-Sizes = Ensures-known Sizes hard_cap _ (λ hard h.
      Ensures-known Sizes soft_cap _ (λ soft s.
        Ensures-known Sizes
          (when_filled (vals (codes "download.concurrency")) base.download_concurrency
            (λ v. check_concurrency (trim_space v)))
          _
          (λ concurrency _.
            Ensures-known Sizes
              (when_filled (vals (codes "download.poll_every")) base.download_poll_every
                (λ v. check_duration parse_duration (codes "download.poll_every") (trim_space v)))
              _
              (λ poll _. Ensures-known Sizes buffer_size _ (λ buffer b.
                Ensures-known Sizes
                  (when_filled (vals (codes "health.check_every")) base.health_check_every (λ v.
                    check_duration parse_duration (codes "health.check_every") (trim_space v)))
                  _
                  (λ health _.
                    Ensures-known Sizes
                      (when_filled (vals (codes "library.movies_dir")) base.movies_dir
                        (λ v. check_dir (codes "library.movies_dir") (trim_space v)))
                      _
                      (λ movies _.
                        Ensures-known Sizes
                          (when_filled (vals (codes "library.shows_dir")) base.shows_dir
                            (λ v. check_dir (codes "library.shows_dir") (trim_space v)))
                          _
                          (λ shows _.
                            Ensures-known Sizes
                              (when_filled (vals (codes "library.other_dir")) base.other_dir
                                (λ v. check_dir (codes "library.other_dir") (trim_space v)))
                              _
                              (λ other _.
                                Ensures-known Sizes (check_caps hard soft) _
                                  (λ within _. record { hard = h; soft = s; buffer = b }))))))))))
