-- ===== src/Service/Settings/Applying.antt =====
-- ApplySettings of internal/service/settings.go: what it leaves on every branch.
use plex_mirror.Base.{
  ℕ, ◌≡◌, refl, sym, ap, ◌∙◌, inl, inr, Bool, true, false, not, ◌&&◌, Option, none, some, List, [],
  ◌∷◌, ◌++◌, All, All-append, Text, text_eq, codes, is_empty, has_prefix, Bool-cases,
}
use mathlib.Core.Bool.{false≢true}
use plex_mirror.Base.Base64.{Bytes}
use plex_mirror.Download.Queueing.{reset_all_stale}
use plex_mirror.Config.{Config, Checked, valid, invalid}
use plex_mirror.Settings.Crypto.{is_nil}
use plex_mirror.Settings.Crypto.Inverse.{IsAead, IsDraw, reads_back}
use plex_mirror.Settings.Store.{
  Setting, Faults, Attempt, Map, get_all, set_many, query_failed, read_rows, no_entries,
  is_reserved, is_secret_key,
}
use plex_mirror.Settings.Store
use plex_mirror.Settings.Store.Rows.{IsWellFormed}
use plex_mirror.Settings.Store.Reading.{reads}
use plex_mirror.Settings.Store.Writing.{copy_into, IsStorable, IsAtomic, set_many-IsAtomic}
use plex_mirror.Service.Reload.{
  Outside, Process, Built, Outcome, built, failed, stored_settings, overlaid, reload_with,
  reload_checked, reload_built, build_runtime_with, swapped,
}
use plex_mirror.Service.Reload
use plex_mirror.Service.Reload.Booting.{build_runtime_with-config}
use plex_mirror.Discovery.{Discovered}
use plex_mirror.Service.Settings.{
  ConfigUpdate, to_set, plain_entries, apply_secret, ApplyError, rejected, save_failed,
  reload_after_save, load_failed, reloaded, saved, save, apply_settings,
}

module _ (key : Bytes) where
  blank_reads_back : reads_back key [] ≡ true
  unfolding has_prefix
  blank_reads_back = elim (Bool-cases (is_nil key)) [ inl e ↦ rw e refl | inr e ↦ rw e refl ]

  apply_secret-IsStorable :
      (k v : Text) (clear : Bool)
      → is_reserved k ≡ false
      → reads_back key v ≡ true
      → All (IsStorable key) (apply_secret k v clear)
  unfolding apply_secret
  apply_secret-IsStorable k v clear n r = elim (Bool-cases clear) [
    | inl c ↦ rw c ((n, λ _. blank_reads_back), tt)
    | inr c ↦ elim (Bool-cases (is_empty v)) [
      | inl e ↦ rw (c, e) tt
      | inr e ↦ rw (c, e) ((n, λ _. r), tt)
    ]
  ]

  abbrev all_plain : List (Text × Text) → Bool
  all_plain [] = true
  all_plain (e ∷ kv) = not (is_reserved e.0) && not (is_secret_key e.0) && all_plain kv

  all_plain-IsStorable : (kv : List (Text × Text)) → all_plain kv ≡ true → All (IsStorable key) kv
  all_plain-IsStorable [] h = tt
  all_plain-IsStorable ((k, v) ∷ kv) h = elim (Bool-cases (is_reserved k)) [
    | inl r ↦ absurd (false≢true (rw r at h))
    | inr r ↦ elim (Bool-cases (is_secret_key k)) [
      | inl c ↦ absurd (false≢true (rw (r, c) at h))
      | inr c ↦
          ((r, λ q. absurd (false≢true (sym c ∙ q))), all_plain-IsStorable kv (rw (r, c) at h))
    ]
  ]

  -- The form writes no reserved key, and its tokens read back.
  to_set-IsStorable :
      (up : ConfigUpdate)
      → reads_back key up.plex_token ≡ true
      → reads_back key up.jellyfin_token ≡ true
      → All (IsStorable key) (to_set up)
  unfolding to_set plain_entries has_prefix text_eq
  to_set-IsStorable up p j =
      All-append (IsStorable key) (plain_entries up ++ plex_secret) jellyfin_secret
        (All-append (IsStorable key) (plain_entries up) plex_secret
          (all_plain-IsStorable (plain_entries up) refl)
          (apply_secret-IsStorable (codes "plex.token") up.plex_token up.clear_plex_token refl p))
        (apply_secret-IsStorable (codes "jellyfin.token") up.jellyfin_token up.clear_jellyfin_token
          refl j)
    where
      plex_secret : List (Text × Text)
      plex_secret = apply_secret (codes "plex.token") up.plex_token up.clear_plex_token

      jellyfin_secret : List (Text × Text)
      jellyfin_secret =
          apply_secret (codes "jellyfin.token") up.jellyfin_token up.clear_jellyfin_token

module _ (o : Outside) (aead : IsAead o.cipher) (draws : (k : Text) → IsDraw o.cipher (o.nonces k))
    (later : Faults) (now : ℕ) (up : ConfigUpdate) (p : Process) where
  -- What GetAll is to read once the form is saved.
  abbrev pub posted : Map
  posted = copy_into (to_set up) (reads o.cipher o.key p.settings)

  -- The table of settings holds the old settings with the form copied over them.
  abbrev pub IsSaved : Process → Type 0
  IsSaved p' = IsWellFormed p'.settings × (reads o.cipher o.key p'.settings ≡ posted)

  -- The process after, by the error that ApplySettings returns.
  abbrev pub IsApplied : Process × Option ApplyError → Type 0
  IsApplied (p', some (load_failed e)) = p' ≡ p
  IsApplied (p', some (rejected e)) = (p' ≡ p) × (overlaid o posted ≡ invalid e)
  IsApplied (p', some (save_failed e)) = p' ≡ p
  IsApplied (p', some (reload_after_save (Reload.load_failed e))) =
      IsSaved p' × (p' ≡ record p { settings = p'.settings })
  IsApplied (p', some (reload_after_save (Reload.bad_settings e))) = ⊥
  IsApplied (p', some (reload_after_save (Reload.build_failed e))) =
      IsSaved p'
      × (p' ≡ record p { settings = p'.settings })
      × ((c : Config) × (overlaid o posted ≡ valid c) × (build_runtime_with o c none ≡ failed e))
  IsApplied (p', none) =
      IsSaved p'
      × (overlaid o posted ≡ valid p'.live.config)
      × ((d : Option Discovered) × (build_runtime_with o p'.live.config none ≡ built (p'.live, d)))
      × (p'.table ≡ reset_all_stale p.table)

  abbrev there : Outside
  there = record o { faults = later }

  built-IsApplied :
      (rows : List Setting) (c : Config) (b : Outcome (Built × Option Discovered))
      → IsAtomic o.cipher aead o.key o.nonces draws o.faults now
          (to_set up)
          p.settings
          (rows, Store.ok tt)
      → overlaid o posted ≡ valid c
      → build_runtime_with o c none ≡ b
      → IsApplied (reloaded (reload_built now (record p { settings = rows }) b))
  built-IsApplied rows c (failed e) w q r = (w, refl, (c, q, r))
  built-IsApplied rows c (built (b, resolved)) w q r =
      let same = build_runtime_with-config o c none b resolved r in
      (
        w,
        q ∙ ap valid (sym same),
        (resolved, ap (λ (x : Config). build_runtime_with o x none) same ∙ r),
        refl,
      )

  saved-IsApplied :
      (c : Config) (r : List Setting × Attempt (Unit {0}))
      → IsAtomic o.cipher aead o.key o.nonces draws o.faults now (to_set up) p.settings r
      → overlaid o posted ≡ valid c
      → IsApplied (saved o later now p r)
  unfolding reload_with get_all
  saved-IsApplied c (rows, Store.err e) w q = ap (λ (x : List Setting). record p { settings = x }) w
  saved-IsApplied c (rows, Store.ok done) w q = elim (Bool-cases later.query) [
    | inl l ↦ rw l (w, refl)
    | inr l ↦ rw (l, w.1, q) (built-IsApplied rows c (build_runtime_with o c none) w q refl)
  ]

  -- What ApplySettings leaves: nothing has changed where it fails before it has saved, and what it
  -- saved is accepted by the overlay, so that the reload can only fail on the database or in building
  -- a client; the process then goes on as it was. Where it succeeds the process runs that
  -- configuration, and no row of the mirror is left as downloading by the workers that it stopped.
  pub apply_settings-IsApplied :
      IsWellFormed p.settings
      → reads_back o.key up.plex_token ≡ true
      → reads_back o.key up.jellyfin_token ≡ true
      → IsApplied (apply_settings o later now up p)
  unfolding apply_settings get_all
  apply_settings-IsApplied u x y = elim (Bool-cases o.faults.query) [
    | inl f ↦ rw f refl
    | inr f ↦ rw f (checked (overlaid o posted) refl)
  ]
    where
      checked :
          (k : Checked Config)
          → overlaid o posted ≡ k
          → IsApplied (save o later now (to_set up) p k)
      checked (invalid e) q = (refl, q)
      checked (valid c) q =
          saved-IsApplied c (set_many o.cipher o.key o.nonces o.faults now (to_set up) p.settings)
            (set_many-IsAtomic o.cipher aead o.key o.nonces draws o.faults now (to_set up)
              p.settings u (to_set-IsStorable o.key up x y))
            q
