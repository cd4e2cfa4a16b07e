-- ===== src/Tests/Retrying.antt =====
-- Runs of Download of internal/download/engine.go against a server that fails at first.
use mathlib.Core.Option.{none-ne-some}
use plex_mirror.Base.{
  ℕ, zero, suc, ◌≡◌, refl, inl, inr, none, codes, arith, of_some, text_eq, text_eq_refl,
}
use plex_mirror.Files.{content_at}
use plex_mirror.Layout.{final}
use plex_mirror.Layout
use plex_mirror.Download.Fetch.{Attempt}
use plex_mirror.Download.Honest.{IsHonest}
use plex_mirror.Download.Delivered.{Delivers, IsRetryable}
use plex_mirror.Download.{Remote, item_of, download}
use plex_mirror.Download.Integrity.{IsMirrored, Serves}
use plex_mirror.Download.Completing.{Succeeds, CanLand, download-finishes}
use plex_mirror.Tests.Downloading.{
  file, answer, whole_response, whole_response-IsHonest, remote, engine, queued_d, alien,
  queued_d_found,
}
use plex_mirror.Tests.Fixtures.{disk}

-- No response, then a 503, then the file.
abbrev flaky : ℕ → Attempt
flaky zero = record (answer whole_response) { response = none }
flaky (suc zero) = answer (record whole_response { status_code = 503 })
flaky (suc (suc k)) = answer whole_response

abbrev flaky_remote : Remote
flaky_remote = record remote { attempt = λ k start. flaky k }

flaky-IsHonest : (k start : ℕ) → IsHonest file start (flaky k)
flaky-IsHonest zero start r e = absurd (none-ne-some _ e)
flaky-IsHonest (suc zero) start r e =
    let same : record whole_response { status_code = 503 } ≡ r = of_some e in
    rw (← same)
      ((λ h. absurd (omega arith)), (λ h. absurd (omega arith)), (λ h. absurd (omega arith)))
flaky-IsHonest (suc (suc k)) start r e = whole_response-IsHonest start r e

whole_response-Delivers : Delivers 3 (answer whole_response)
whole_response-Delivers = (
  refl,
  refl,
  refl,
  refl,
  (whole_response, refl, inl refl, (refl, refl, inr (refl, (refl, refl, inl refl)))),
)

unavailable-IsRetryable : IsRetryable 3 (flaky 1)
unavailable-IsRetryable = (
  refl,
  λ r e.
      let same : record whole_response { status_code = 503 } ≡ r = of_some e in
      rw (← same) (inr (omega arith)),
)

third_attempt : Succeeds flaky_remote 3 5 0
third_attempt = (
  refl,
  inr (
    refl,
    (λ start. (refl, λ r e. absurd (none-ne-some _ e))),
    (
      refl,
      inr (
        refl,
        (λ start. unavailable-IsRetryable),
        (refl, inl (λ start. whole_response-Delivers)),
      ),
    ),
  ),
)

flaky_landing : final engine.layout (item_of flaky_remote queued_d) ≡ Layout.ok alien
unfolding item_of final
flaky_landing = refl

flaky_served : Serves engine flaky_remote queued_d file disk
unfolding content_at text_eq Layout.partial
flaky_served = ((file, refl), flaky-IsHonest)

flaky_lands : CanLand engine flaky_remote queued_d alien file
unfolding item_of
flaky_lands = (refl, refl, refl, refl, refl, refl, refl)

download-finishes_example :
    ((download engine flaky_remote 40 4 disk).1 ≡ none)
    × IsMirrored engine queued_d alien file (download engine flaky_remote 40 4 disk).0
download-finishes_example =
    download-finishes engine flaky_remote 40 4 disk queued_d file alien queued_d_found refl
      (text_eq_refl (codes "plex")) refl flaky_landing flaky_lands flaky_served third_attempt
