-- ===== src/Service/Reload/Booting.antt =====
-- New and buildRuntimeWith of internal/service/service.go: when the process starts.
use plex_mirror.Base.{
  ◌≡◌, sym, ap, inl, inr, false, not, ◌||◌, Option, some, Text, is_empty, Bool-cases,
}
use plex_mirror.Config.{Config}
use plex_mirror.Discovery.{Discovered}
use plex_mirror.Service.Health.Seed.{jellyfin_configured}
use plex_mirror.Service.Reload.{
  Outside, BuildError, Built, Outcome, built, failed, jellyfin_ok, resolve_plex, build_plex,
  assemble, build_runtime_with,
}

abbrev config_of : Config → Outcome (Built × Option Discovered) → Config
config_of c (built (b, resolved)) = b.config
config_of c (failed e) = c

assemble-config :
    (c : Config) (resolved : Option Discovered) (client : Outcome (Option (Text × Text)))
    (b : Built) (resolved' : Option Discovered)
    → assemble c resolved client ≡ built (b, resolved')
    → b.config ≡ c
unfolding assemble
assemble-config c resolved (failed e) b resolved' h = sym (ap (config_of c) h)
assemble-config c resolved (built plex) b resolved' h =
    elim (Bool-cases (not (jellyfin_configured c) || jellyfin_ok c)) [
      | inl k ↦ sym (ap (config_of c) (rw k at h))
      | inr k ↦ sym (ap (config_of c) (rw k at h))
    ]

not_built {ℓ} : {A : Type ℓ} {e : BuildError} {a : A} → ¬ (Path (Outcome A) (failed e) (built a))
not_built h = cc

of_built {ℓ} : {A : Type ℓ} {x y : A} → Path (Outcome A) (built x) (built y) → x ≡ y
of_built h = cc

abbrev plex_of : Option (Text × Text) → Outcome (Built × Option Discovered) → Option (Text × Text)
plex_of plex (failed e) = plex
plex_of plex (built (b, resolved)) = b.plex

module _ (o : Outside) where
  pub build_runtime_with-config :
      (c : Config) (pre : Option Discovered) (b : Built) (resolved : Option Discovered)
      → build_runtime_with o c pre ≡ built (b, resolved)
      → b.config ≡ c
  unfolding build_runtime_with
  build_runtime_with-config c pre b resolved e =
      assemble-config c (resolve_plex o c pre).1 (build_plex o c (resolve_plex o c pre).0) b
        resolved e

  assemble-plex :
      (c : Config) (resolved : Option Discovered) (client : Outcome (Option (Text × Text)))
      (b : Built) (resolved' : Option Discovered)
      → assemble c resolved client ≡ built (b, resolved')
      → client ≡ built b.plex
  unfolding assemble
  assemble-plex c resolved (failed e) b resolved' h = absurd (not_built h)
  assemble-plex c resolved (built plex) b resolved' h =
      elim (Bool-cases (not (jellyfin_configured c) || jellyfin_ok c)) [
        | inl k ↦ ap built (ap (plex_of plex) (rw k at h))
        | inr k ↦ absurd (not_built (rw k at h))
      ]

  build_plex-connection :
      (c : Config) (url token : Text) (x : Option (Text × Text))
      → is_empty url ≡ false
      → is_empty token ≡ false
      → build_plex o c (url, token) ≡ built x
      → x ≡ some (url, token)
  unfolding build_plex
  build_plex-connection c url token x u t e = elim (Bool-cases (o.valid_url url)) [
    | inr v ↦ absurd (not_built (rw (u, t, v) at e))
    | inl v ↦ elim (Bool-cases (not (jellyfin_configured c) || jellyfin_ok c)) [
      | inr j ↦ absurd (not_built (rw (u, t, v, j) at e))
      | inl j ↦ elim (Bool-cases (not (is_empty c.media_root))) [
        | inr m ↦ absurd (not_built (rw (u, t, v, j, m) at e))
        | inl m ↦ sym (of_built (rw (u, t, v, j, m) at e))
      ]
    ]
  ]

  -- A runtime over a connection whose URL and token are not empty holds that connection.
  pub build_runtime_with-plex :
      (c : Config) (d : Discovered) (b : Built) (resolved : Option Discovered)
      → is_empty d.base_url ≡ false
      → is_empty d.access_token ≡ false
      → build_runtime_with o c (some d) ≡ built (b, resolved)
      → b.plex ≡ some (d.base_url, d.access_token)
  unfolding build_runtime_with resolve_plex
  build_runtime_with-plex c d b resolved u t e =
      build_plex-connection c d.base_url d.access_token b.plex u t
        (assemble-plex c (some d) (build_plex o c (d.base_url, d.access_token)) b resolved e)
