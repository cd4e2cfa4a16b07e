-- ===== src/Service/Health/Seed/Tracked.antt =====
-- seedHealth of internal/service/health.go: which sources it tracks, and the backoff it leaves.
use plex_mirror.Base.{
  ℕ, ◌≡◌, refl, sym, ap, ◌∙◌, inl, inr, Bool, true, false, Option, none, some, if◌then◌else◌,
  or_else, is_some, Text, text_eq, text_eq_iff, Bool-cases,
}
use plex_mirror.Config.{Config}
use plex_mirror.Source.{SourceError, network}
use plex_mirror.Discovery.{Discovered}
use plex_mirror.Service.Health.{
  SourceHealth, SourceStatus, unknown, ok, down, auth_error, parked, Monitor, blank, set_health,
  backoff, classify, is_canceled, observe_status, record_observation, probe_and_record,
}
use plex_mirror.Service.Health.Seed.{
  plex, jellyfin, plex_entry, jellyfin_entry, plex_configured, jellyfin_configured, seed_health,
}

set_health-tracked :
    (name n : Text) (f : SourceHealth → SourceHealth) (m : Monitor)
    → is_some (m.health name) ≡ true
    → is_some ((set_health name f m).health n) ≡ is_some (m.health n)
unfolding set_health
set_health-tracked name n f m h = elim (Bool-cases (text_eq n name)) [
  | inl e ↦ rw e (sym (ap (λ x. is_some (m.health x)) ((text_eq_iff n name).0 e) ∙ h))
  | inr e ↦ rw e refl
]

observe_status-tracked :
    (now : ℕ) (name n : Text) (s : SourceStatus) (e : Option SourceError) (m : Monitor)
    → is_some (m.health name) ≡ true
    → is_some ((observe_status now name s e m).health n) ≡ is_some (m.health n)
observe_status-tracked now name n ok e m h = set_health-tracked name n _ m h
observe_status-tracked now name n auth_error e m h = set_health-tracked name n _ m h
observe_status-tracked now name n parked e m h = set_health-tracked name n _ m h
observe_status-tracked now name n unknown e m h = set_health-tracked name n _ m h
observe_status-tracked now name n down e m h = set_health-tracked name n _ m h

record_observation-tracked :
    (now : ℕ) (name n : Text) (e : Option SourceError) (m : Monitor)
    → is_some ((record_observation now name e m).health n) ≡ is_some (m.health n)
unfolding record_observation
record_observation-tracked now name n e m = elim (Bool-cases (is_some (m.health name))) [
  | inl h ↦ elim (Bool-cases (is_canceled e)) [
    | inl k ↦ rw (h, k) refl
    | inr k ↦ rw (h, k) (observe_status-tracked now name n (classify e) e m h)
  ]
  | inr h ↦ elim (Bool-cases (is_canceled e)) [ inl k ↦ rw (h, k) refl | inr k ↦ rw (h, k) refl ]
]

module _ (now : ℕ) (c : Config) (plex_built jellyfin_built : Bool) (disc : Option Discovered)
    (m : Monitor) where
  abbrev after : Monitor
  after = seed_health now c plex_built jellyfin_built disc m

  -- What the entry of a source was.
  abbrev entry : Text → SourceHealth
  entry name = record (or_else (blank name) (m.health name)) { name = name }

  seeded_plex :
      after.health plex
      ≡ (if plex_configured c then some (plex_entry now c plex_built disc (entry plex)) else none)
  unfolding seed_health text_eq
  seeded_plex = elim (Bool-cases (plex_configured c)) [
    | inl e ↦ elim (Bool-cases (jellyfin_configured c)) [
      | inl f ↦ rw (e, f) refl
      | inr f ↦ rw (e, f) refl
    ]
    | inr e ↦ elim (Bool-cases (jellyfin_configured c)) [
      | inl f ↦ rw (e, f) refl
      | inr f ↦ rw (e, f) refl
    ]
  ]

  seeded_jellyfin : after.health jellyfin ≡ (
      if jellyfin_configured c
      then some (jellyfin_entry now c jellyfin_built (entry jellyfin))
      else none)
  unfolding seed_health text_eq
  seeded_jellyfin = elim (Bool-cases (plex_configured c)) [
    | inl e ↦ elim (Bool-cases (jellyfin_configured c)) [
      | inl f ↦ rw (e, f) refl
      | inr f ↦ rw (e, f) refl
    ]
    | inr e ↦ elim (Bool-cases (jellyfin_configured c)) [
      | inl f ↦ rw (e, f) refl
      | inr f ↦ rw (e, f) refl
    ]
  ]

  seeded_others :
      (name : Text)
      → text_eq name plex ≡ false
      → text_eq name jellyfin ≡ false
      → after.health name ≡ m.health name
  unfolding seed_health
  seeded_others name p j = elim (Bool-cases (plex_configured c)) [
    | inl e ↦ elim (Bool-cases (jellyfin_configured c)) [
      | inl f ↦ rw (e, f, p, j) refl
      | inr f ↦ rw (e, f, p, j) refl
    ]
    | inr e ↦ elim (Bool-cases (jellyfin_configured c)) [
      | inl f ↦ rw (e, f, p, j) refl
      | inr f ↦ rw (e, f, p, j) refl
    ]
  ]

  abbrev pub tracks : Text → Bool
  tracks name =
      if text_eq name plex
      then plex_configured c
      else if text_eq name jellyfin
      then jellyfin_configured c
      else is_some (m.health name)

  seeded_tracked : (name : Text) → is_some (after.health name) ≡ tracks name
  seeded_tracked name = elim (Bool-cases (text_eq name plex)) [
    | inl p ↦
        rw (p, (text_eq_iff name plex).0 p, seeded_plex)
          (elim (Bool-cases (plex_configured c)) [ inl e ↦ rw e refl | inr e ↦ rw e refl ])
    | inr p ↦ elim (Bool-cases (text_eq name jellyfin)) [
      | inl j ↦
          rw (p, j, (text_eq_iff name jellyfin).0 j, seeded_jellyfin)
            (elim (Bool-cases (jellyfin_configured c)) [ inl e ↦ rw e refl | inr e ↦ rw e refl ])
      | inr j ↦ rw (p, j, seeded_others name p j) refl
    ]
  ]

  -- After a seed exactly the sources with configured credentials are tracked, beside those that
  -- have other names and were tracked before, and an observation of any call, which may come of a
  -- source that is no longer configured, does not change that.
  pub seed_health_tracks :
      (now' : ℕ) (name name' : Text) (e : Option SourceError)
      → (is_some (after.health name) ≡ tracks name)
        × (is_some ((record_observation now' name' e after).health name) ≡ tracks name)
  seed_health_tracks now' name name' e = (
    seeded_tracked name,
    record_observation-tracked now' name' name e after ∙ seeded_tracked name,
  )

-- Where both sources are configured and built, a seed resets the backoff of Plex but not that of
-- Jellyfin: the next failed probe of Plex waits the first delay, and that of Jellyfin waits the
-- delay after all the failures before the seed.
pub seeded_backoff :
    (now every now' : ℕ) (jitter : ℕ → ℕ) (c : Config) (disc : Option Discovered) (m : Monitor)
    (h : SourceHealth)
    → m.health jellyfin ≡ some h
    → plex_configured c ≡ true
    → jellyfin_configured c ≡ true
    → ((probe_and_record jitter every now' plex
          (some (some network))
          false
          (seed_health now c true true disc m)).1
        ≡ jitter (backoff 0))
      × ((probe_and_record jitter every now' jellyfin
            (some (some network))
            false
            (seed_health now c true true disc m)).1
          ≡ jitter (backoff h.attempt))
unfolding probe_and_record
seeded_backoff now every now' jitter c disc m h k p j = (
  rw (seeded_plex now c true true disc m, p) refl,
  rw (seeded_jellyfin now c true true disc m, j, k) refl,
)
