-- ===== src/Service/Health.antt =====
-- internal/service/health.go: the health of the sources, their probes and the backoff. Times are
-- counts of nanoseconds; the jitter of a delay is an argument.
pub mod Backoff
pub mod Outage
pub mod Seed
use plex_mirror.Base.{
  ℕ, suc, ◌+◌, ◌*◌, ◌^◌, Bool, true, false, not, ◌&&◌, ◌||◌, Option, none, some, List, [],
  if◌then◌else◌, ltb, leb, or_else, is_some, Text, codes, text_eq, is_empty,
}
use plex_mirror.Base.Int.{ℤ, pos, negsuc, wrap64}
use plex_mirror.Source.{
  SourceError, auth, not_found, network, unsupported, canceled, deadline, unwrapped,
}
use plex_mirror.Discovery.{ConnectionProbe}
use plex_mirror.Discovery

pub data SourceStatus : Type 0 where
  unknown ok down auth_error parked : SourceStatus

pub data HealthError : Type 0 where
  failed : SourceError → HealthError
  discovery_failed : HealthError
  not_discovered : Discovery.Failure → HealthError
  no_reachable_connection : HealthError
  reload_failed : HealthError

pub record SourceHealth : Type 0 where
  pub name : Text
  pub status : SourceStatus
  pub last_error : Option HealthError
  pub last_success : Option ℕ
  pub last_check : Option ℕ
  pub chosen_url : Text
  pub relay : Bool
  pub candidates : List ConnectionProbe
  pub consecutive_failures : ℕ
  pub next_retry_at : Option ℕ
  pub attempt : ℕ

-- The registry, the channel of reconnect requests, which holds one, and that of kicks.
pub record Monitor : Type 0 where
  pub health : Text → Option SourceHealth
  pub reconnect : Option Text
  pub kicked : Bool

abbrev pub blank : Text → SourceHealth
blank name = record {
  name = name;
  status = unknown;
  last_error = none;
  last_success = none;
  last_check = none;
  chosen_url = [];
  relay = false;
  candidates = [];
  consecutive_failures = 0;
  next_retry_at = none;
  attempt = 0;
}

unfoldable pub set_health : Text → (SourceHealth → SourceHealth) → Monitor → Monitor
unfolding text_eq
set_health name mutate m = record m {
  health = λ n.
      if text_eq n name
      then some (mutate (record (or_else (blank name) (m.health name)) { name = name }))
      else m.health n;
}

-- classifyHealthErr
unfoldable pub classify : Option SourceError → SourceStatus
classify none = ok
classify (some auth) = auth_error
classify (some not_found) = parked
classify (some _) = down

abbrev pub backoff_base : ℕ
backoff_base = 2 * 10 ^ 9

abbrev pub backoff_max : ℕ
backoff_max = 120 * 10 ^ 9

abbrev pub positive_below : ℤ → ℕ → ℕ → ℕ
positive_below (pos n) limit fallback = if ltb 0 n && ltb n limit then n else fallback
positive_below (negsuc n) limit fallback = fallback

-- healthBackoff before the jitter; the shift wraps as an int64 does.
unfoldable pub backoff : ℕ → ℕ
unfolding wrap64
backoff attempt =
    if ltb attempt 31
    then positive_below (wrap64 (backoff_base * 2 ^ attempt)) backoff_max backoff_max
    else backoff_max

abbrev pub succeed : ℕ → SourceHealth → SourceHealth
succeed now h = record h {
  status = ok;
  last_error = none;
  last_success = some now;
  last_check = some now;
  consecutive_failures = 0;
  attempt = 0;
  next_retry_at = none;
}

abbrev pub error_of : Option SourceError → Option HealthError
error_of none = none
error_of (some e) = some (failed e)

abbrev pub fail : ℕ → ℕ → Option SourceError → SourceHealth → SourceHealth
fail now delay e h = record h {
  status = down;
  last_error = error_of e;
  last_check = some now;
  consecutive_failures = suc h.consecutive_failures;
  attempt = suc h.attempt;
  next_retry_at = some (now + delay);
}

-- requestReconnect: a request that is pending stays.
abbrev pub request_reconnect : Text → Monitor → Monitor
request_reconnect name m = record m {
  reconnect = if is_some m.reconnect then m.reconnect else some name;
}

module _ (jitter : ℕ → ℕ) (every now : ℕ) (name : Text) where
  -- The transient branch of probeAndRecord: the delay is that of the attempt before it is counted.
  unfoldable pub record_down : Option SourceError → Monitor → Monitor × ℕ
  unfolding set_health backoff
  record_down e m =
      let delay = jitter (backoff (or_else (blank name) (m.health name)).attempt) in
      let m' = set_health name (fail now delay e) m in
      (if text_eq name (codes "plex") then request_reconnect name m' else m', delay)

  abbrev pub record_parked : Option SourceError → Monitor → Monitor
  record_parked e m =
      set_health name
        (λ h. record h {
          status = classify e;
          last_error = error_of e;
          last_check = some now;
          consecutive_failures = suc h.consecutive_failures;
          attempt = 0;
          next_retry_at = some (now + every);
        })
        m

  -- The switch of probeAndRecord on the class of the probe's error.
  abbrev pub record_probe : SourceStatus → Option SourceError → Monitor → Monitor × ℕ
  record_probe ok e m = (set_health name (succeed now) m, every)
  record_probe auth_error e m = (record_parked e m, every)
  record_probe parked e m = (record_parked e m, every)
  record_probe _ e m = record_down e m

  -- probeAndRecord: `probe` is none where the source is not built, and else the error of
  -- ListLibraries, if any.
  unfoldable pub probe_and_record : Option (Option SourceError) → Bool → Monitor → Monitor × ℕ
  unfolding classify set_health record_down
  probe_and_record probe stopped m =
      let e = or_else (some network) probe in
      if stopped then (m, every) else record_probe (classify e) e m

-- recordObservation: only of a source that is tracked, and never where the caller went away.
abbrev pub is_canceled : Option SourceError → Bool
is_canceled (some canceled) = true
is_canceled _ = false

abbrev pub observe_status : ℕ → Text → SourceStatus → Option SourceError → Monitor → Monitor
observe_status now name ok e m = set_health name (succeed now) m
observe_status now name auth_error e m =
    set_health name
      (λ h. record h { status = auth_error; last_error = error_of e; last_check = some now }) m
observe_status now name parked e m =
    set_health name
      (λ h. record h { status = parked; last_error = error_of e; last_check = some now }) m
observe_status now name _ e m =
    record (set_health name
      (λ h. record h { status = down; last_error = error_of e; last_check = some now }) m) {
        kicked = true;
      }

unfoldable pub record_observation : ℕ → Text → Option SourceError → Monitor → Monitor
unfolding classify set_health
record_observation now name e m =
    if is_canceled e || not (is_some (m.health name))
    then m
    else observe_status now name (classify e) e m
