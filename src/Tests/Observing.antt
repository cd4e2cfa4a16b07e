-- ===== src/Tests/Observing.antt =====
-- Runs of internal/service/health.go.
use plex_mirror.Base.{
  ◌≡◌, ◌+◌, ◌*◌, ◌^◌, refl, false, true, none, some, is_some, codes, text_eq, ltb, if◌then◌else◌,
}
use plex_mirror.Source.{network}
use plex_mirror.Service.Health.{
  SourceHealth, Monitor, blank, succeed, ok, backoff, backoff_base, backoff_max, probe_and_record,
  record_observation,
}
use plex_mirror.Config.{Config}
use plex_mirror.Tests.Configuring.{base}
use plex_mirror.Service.Health.Seed.{plex, jellyfin, seed_health}
use plex_mirror.Service.Health.Seed.Tracked.{seed_health_tracks}
use plex_mirror.Service.Health.Outage.{fail_times, IsDown, outage_backs_off}

abbrev healthy : SourceHealth
healthy = succeed 5 (blank (codes "plex"))

abbrev monitor : Monitor
monitor = record {
  health = λ name. if text_eq name (codes "plex") then some healthy else none;
  reconnect = none;
  kicked = false;
}

-- The sixth failure in a row waits 64 s, the seventh 2 min.
sixth : backoff 5 ≡ 64 * 10 ^ 9
unfolding backoff
sixth = refl

seventh : backoff 6 ≡ 120 * 10 ^ 9
unfolding backoff
seventh = refl

tracked : monitor.health (codes "plex") ≡ some healthy
unfolding text_eq
tracked = refl

abbrev third : Monitor
third = fail_times (λ d. d) 30 (codes "plex") (λ k. k) 3 monitor

outage_backs_off_example :
    ((h : SourceHealth) × (third.health (codes "plex") ≡ some h)
      × IsDown (λ d. d) 30 (codes "plex") 3 healthy h)
    × ((probe_and_record (λ d. d) 30 9 (codes "plex") (some (some network)) false third).1 ≡ (
        if ltb (backoff_base * 2 ^ (0 + 3)) backoff_max
        then backoff_base * 2 ^ (0 + 3)
        else backoff_max))
    × ((h : SourceHealth) × ((probe_and_record
              (λ d. d)
              30
              9
              (codes "plex")
              (some none)
              false
              third).0.health
            (codes "plex")
          ≡ some h)
        × (h.status ≡ ok)
        × (h.consecutive_failures ≡ 0)
        × (h.attempt ≡ 0)
        × (h.last_error ≡ none))
outage_backs_off_example =
    outage_backs_off (λ d. d) (λ k. k) 30 9 3 (codes "plex") monitor healthy tracked

-- Jellyfin after three failures, and Plex not tracked.
abbrev failing : Monitor
failing = record {
  health = λ name.
      if text_eq name jellyfin then some (record (blank jellyfin) { attempt = 3 }) else none;
  reconnect = none;
  kicked = false;
}

abbrev both : Config
both = record base {
  plex_url = codes "http://plex";
  plex_token = codes "p";
  jellyfin_url = codes "http://jellyfin";
  jellyfin_token = codes "j";
}

seed_health_tracks_example :
    (is_some ((seed_health 5 both false true none failing).health plex) ≡ true)
    × (is_some (
          (record_observation 6 jellyfin
              (some network)
              (seed_health 5 both false true none failing)).health
            plex)
        ≡ true)
unfolding text_eq
seed_health_tracks_example =
    seed_health_tracks 5 both false true none failing 6 plex jellyfin (some network)

failing_jellyfin : failing.health jellyfin ≡ some (record (blank jellyfin) { attempt = 3 })
unfolding text_eq
failing_jellyfin = refl
