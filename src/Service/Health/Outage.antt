-- ===== src/Service/Health/Outage.antt =====
-- What an outage does to the health of a source in internal/service/health.go, and its end.
use plex_mirror.Base.{
  ℕ, zero, suc, ◌+◌, ◌*◌, ◌^◌, ltb, ◌≡◌, refl, ap, ◌∙◌, inl, inr, false, none, some, or_else,
  if◌then◌else◌, Text, codes, text_eq, text_eq_refl, Bool-cases, arith,
}
use plex_mirror.Source.{network}
use plex_mirror.Service.Health.Backoff.{backoff_doubles}
use plex_mirror.Service.Health.{
  backoff_base, backoff_max, SourceHealth, ok, fail, blank, Monitor, set_health, backoff, succeed,
  record_down, probe_and_record,
}

set_health_self :
    (name : Text) (f : SourceHealth → SourceHealth) (m : Monitor) (h : SourceHealth)
    → m.health name ≡ some h
    → (set_health name f m).health name ≡ some (f (record h { name = name }))
unfolding set_health
set_health_self name f m h e = rw (text_eq_refl name) (rw e refl)

module _ (jitter : ℕ → ℕ) (every : ℕ) (name : Text) where
  -- A run of probes that fail as a network does, at the times that `clock` gives.
  unfoldable pub fail_times : (ℕ → ℕ) → ℕ → Monitor → Monitor
  unfolding probe_and_record
  fail_times clock zero m = m
  fail_times clock (suc n) m =
      (probe_and_record jitter every (clock n) name (some (some network)) false
        (fail_times clock n m)).0

  -- The record of a source after n failures in a row.
  pub record IsDown (n : ℕ) (before after : SourceHealth) : Type 0 where
    pub attempt : after.attempt ≡ before.attempt + n
    pub failures : after.consecutive_failures ≡ before.consecutive_failures + n
    pub last_success : after.last_success ≡ before.last_success
    pub chosen_url : after.chosen_url ≡ before.chosen_url

  -- One more failure.
  fail_once :
      (now n : ℕ) (m : Monitor) (before h : SourceHealth)
      → m.health name ≡ some h
      → IsDown n before h
      → (h' : SourceHealth) × ((probe_and_record jitter every now name
              (some (some network))
              false
              m).0.health
            name
          ≡ some h')
        × IsDown (suc n) before h'
  unfolding probe_and_record record_down
  fail_once now n m before h e w = (
    after,
    elim (Bool-cases (text_eq name (codes "plex"))) [
      | inl p ↦ rw p (set_health_self name step m h e ∙ delayed)
      | inr p ↦ rw p (set_health_self name step m h e ∙ delayed)
    ],
    record {
      attempt = omega (arith, w.attempt);
      failures = omega (arith, w.failures);
      last_success = w.last_success;
      chosen_url = w.chosen_url;
    },
  )
    where
      after : SourceHealth
      after = fail now (jitter (backoff h.attempt)) (some network) (record h { name = name })

      step : SourceHealth → SourceHealth
      step =
          fail now (jitter (backoff (or_else (blank name) (m.health name)).attempt)) (some network)

      delayed : some (step (record h { name = name })) ≡ some after
      delayed = rw e refl

  outage :
      (clock : ℕ → ℕ) (n : ℕ) (m : Monitor) (h : SourceHealth)
      → m.health name ≡ some h
      → (h' : SourceHealth) × ((fail_times clock n m).health name ≡ some h') × IsDown n h h'
  unfolding fail_times
  outage clock zero m h e = (
    h,
    e,
    record {
      attempt = omega arith;
      failures = omega arith;
      last_success = refl;
      chosen_url = refl;
    },
  )
  outage clock (suc n) m h e =
      let (h', found, w) = outage clock n m h e in
      fail_once (clock n) n (fail_times clock n m) h h' found w

  -- The delay that the next failure asks for.
  next_delay :
      (now : ℕ) (m : Monitor) (h : SourceHealth)
      → m.health name ≡ some h
      → (probe_and_record jitter every now name (some (some network)) false m).1
        ≡ jitter (backoff h.attempt)
  unfolding probe_and_record record_down
  next_delay now m h e = rw e refl

  -- A success after whatever came before.
  recovers :
      (now : ℕ) (m : Monitor) (h : SourceHealth)
      → m.health name ≡ some h
      → (probe_and_record jitter every now name (some none) false m).0.health name
        ≡ some (succeed now (record h { name = name }))
  unfolding probe_and_record
  recovers now m h e = set_health_self name (succeed now) m h e

-- After n probes in a row that fail transiently, a tracked source has n more failures and attempts
-- and keeps the URL and the time of its last success; the failure after them asks for the delay of
-- that attempt, which is 2 s doubled each time and at most 2 min before its jitter; and a success
-- after them clears the failures, the attempts and the error.
pub outage_backs_off :
    (jitter clock : ℕ → ℕ) (every now n : ℕ) (name : Text) (m : Monitor) (h : SourceHealth)
    → m.health name ≡ some h
    → let after = fail_times jitter every name clock n m in
      let delay = backoff_base * 2 ^ (h.attempt + n) in
      ((h' : SourceHealth) × (after.health name ≡ some h') × IsDown jitter every name n h h')
      × ((probe_and_record jitter every now name (some (some network)) false after).1
          ≡ jitter (if ltb delay backoff_max then delay else backoff_max))
      × ((h' : SourceHealth) × ((probe_and_record jitter every now name
                (some none)
                false
                after).0.health
              name
            ≡ some h')
          × (h'.status ≡ ok)
          × (h'.consecutive_failures ≡ 0)
          × (h'.attempt ≡ 0)
          × (h'.last_error ≡ none))
outage_backs_off jitter clock every now n name m h e =
    let (h', found, w) = outage jitter every name clock n m h e in
    let after = fail_times jitter every name clock n m in
    (
      (h', found, w),
      next_delay jitter every name now after h' found
          ∙ ap jitter (ap backoff w.attempt ∙ backoff_doubles (h.attempt + n)),
      (
        succeed now (record h' { name = name }),
        recovers jitter every name now after h' found,
        refl,
        refl,
        refl,
        refl,
      ),
    )
