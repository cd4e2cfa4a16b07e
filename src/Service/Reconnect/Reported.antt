-- ===== src/Service/Reconnect/Reported.antt =====
-- doReconnect of internal/service/health.go: what it reports in the registry of the health.
use plex_mirror.Base.{
  Bool, ℕ, ◌≡◌, refl, inl, inr, true, false, Option, some, Text, text_eq, text_eq_refl, Bool-cases,
  or_else, codes,
}
use plex_mirror.Source.{
  SourceError, auth, not_found, network, unsupported, canceled, deadline, unwrapped,
}
use plex_mirror.Discovery.{
  fetch_failed, no_server, token_required, server_required, ambiguous, no_access_token,
  no_connections,
}
use plex_mirror.Discovery
use plex_mirror.Service.Health.{
  SourceHealth, SourceStatus, Monitor, set_health, classify, probe_and_record, record_down,
  record_probe, down, auth_error, parked, unknown, fail, backoff, blank,
}
use plex_mirror.Service.Health
use plex_mirror.Service.Health.Seed.{plex}
use plex_mirror.Service.Reload.{Process}
use plex_mirror.Service.Reconnect.{ReconnectError, discovery_failed, none_reachable, cause}

-- Only the health of the source `name` has changed.
abbrev pub IsNoted : Text → Process → Process → Type 0
IsNoted name p p' =
    (p' ≡ record p { monitor = p'.monitor })
    × ((n : Text) → text_eq n name ≡ false → p'.monitor.health n ≡ p.monitor.health n)

-- The status that a failed discovery leaves: a rejected token and an unknown server wait for the
-- user, anything else is an outage.
abbrev pub status_after : Discovery.Failure → SourceStatus
status_after (fetch_failed auth) = auth_error
status_after (fetch_failed not_found) = parked
status_after no_server = parked
status_after _ = down

-- What the health of Plex says after a reconnect that failed.
abbrev pub IsReported : Process → ReconnectError → Type 0
IsReported p' (discovery_failed e) =
    (h : SourceHealth) × (p'.monitor.health plex ≡ some h) × (h.status ≡ status_after e)
IsReported p' none_reachable =
    (h : SourceHealth) × (p'.monitor.health plex ≡ some h) × (h.status ≡ down)
IsReported p' _ = Unit

-- A source under another name keeps its health.
pub set_health-other :
    (name n : Text) (f : SourceHealth → SourceHealth) (m : Monitor)
    → text_eq n name ≡ false
    → (set_health name f m).health n ≡ m.health n
unfolding set_health
set_health-other name n f m h = rw h refl

pub others_kept :
    (p : Process) (f : SourceHealth → SourceHealth) (n : Text)
    → text_eq n plex ≡ false
    → (set_health plex f p.monitor).health n ≡ p.monitor.health n
others_kept p f n h = set_health-other plex n f p.monitor h

pub set_health_self :
    (name : Text) (f : SourceHealth → SourceHealth) (m : Monitor)
    → (set_health name f m).health name
      ≡ some (f (record (or_else (blank name) (m.health name)) { name = name }))
unfolding set_health
set_health_self name f m = rw (text_eq_refl name) refl

module _ (jitter : ℕ → ℕ) (every now : ℕ) (name n : Text) (h : text_eq n name ≡ false) where
  record_down-other :
      (e : Option SourceError) (m : Monitor)
      → (record_down jitter every now name e m).0.health n ≡ m.health n
  unfolding record_down
  record_down-other e m = elim (Bool-cases (text_eq name (codes "plex"))) [
    | inl p ↦ rw p (set_health-other name n (fail now delay e) m h)
    | inr p ↦ rw p (set_health-other name n (fail now delay e) m h)
  ]
    where
      delay : ℕ
      delay = jitter (backoff (or_else (blank name) (m.health name)).attempt)

  record_probe-other :
      (st : SourceStatus) (e : Option SourceError) (m : Monitor)
      → (record_probe jitter every now name st e m).0.health n ≡ m.health n
  record_probe-other Health.ok e m = set_health-other name n _ m h
  record_probe-other auth_error e m = set_health-other name n _ m h
  record_probe-other parked e m = set_health-other name n _ m h
  record_probe-other down e m = record_down-other e m
  record_probe-other unknown e m = record_down-other e m

  pub probe_and_record-other :
      (probe : Option (Option SourceError)) (stopped : Bool) (m : Monitor)
      → (probe_and_record jitter every now name probe stopped m).0.health n ≡ m.health n
  unfolding probe_and_record
  probe_and_record-other probe true m = refl
  probe_and_record-other probe false m =
      record_probe-other (classify (or_else (some network) probe)) (or_else (some network) probe) m

pub classify-cause : (e : Discovery.Failure) → classify (some (cause e)) ≡ status_after e
unfolding classify
classify-cause (fetch_failed auth) = refl
classify-cause (fetch_failed not_found) = refl
classify-cause (fetch_failed network) = refl
classify-cause (fetch_failed unsupported) = refl
classify-cause (fetch_failed canceled) = refl
classify-cause (fetch_failed deadline) = refl
classify-cause (fetch_failed unwrapped) = refl
classify-cause no_server = refl
classify-cause token_required = refl
classify-cause server_required = refl
classify-cause (ambiguous n) = refl
classify-cause no_access_token = refl
classify-cause no_connections = refl
