-- ===== src/Service/Settings/Restart.antt =====
-- New of internal/service/service.go after ApplySettings of internal/service/settings.go.
use plex_mirror.Base.{
  ℕ, ◌≡◌, refl, ap, ◌∙◌, inl, inr, true, false, Option, none, some, List, Text, Bool-cases,
}
use plex_mirror.Base.Base64.{Bytes}
use plex_mirror.Items.{Table}
use plex_mirror.Config.{Config, valid}
use plex_mirror.Discovery.{Discovered}
use plex_mirror.Settings.Crypto.{Cipher, is_nil}
use plex_mirror.Settings.Crypto.Inverse.{IsAead, IsDraw, reads_back}
use plex_mirror.Settings.Store.{
  Setting, Faults, Map, get_all, read_rows, no_entries, encrypt_plaintext_secrets,
}
use plex_mirror.Settings.Store
use plex_mirror.Settings.Store.Rows.{IsWellFormed}
use plex_mirror.Settings.Store.Reading.{reads}
use plex_mirror.Settings.Store.Sealing.{encrypt_plaintext_secrets-IsRewritten}
use plex_mirror.Service.Reload.{
  Outside, Process, Built, Outcome, built, failed, overlaid, build_runtime_with, started,
  stored_settings, boot_config, boot,
}
use plex_mirror.Service.Reload
use plex_mirror.Service.Settings.{
  ConfigUpdate, ApplyError, load_failed, rejected, save_failed, reload_after_save, apply_settings,
}
use plex_mirror.Service.Settings.Applying.{posted, IsApplied, apply_settings-IsApplied}

get_all_ok :
    (cipher : Cipher) (key : Bytes) (faults : Faults) (rows : List Setting)
    → faults.query ≡ false
    → get_all cipher key faults rows ≡ Store.ok (reads cipher key rows)
unfolding get_all
get_all_ok cipher key faults rows q = rw q refl

encrypt_plaintext_secrets-unkeyed :
    (cipher : Cipher) (key : Bytes) (nonces : Text → Option Bytes) (faults : Faults) (now : ℕ)
    (rows : List Setting)
    → is_nil key ≡ true
    → encrypt_plaintext_secrets cipher key nonces faults now rows ≡ (rows, Store.ok tt)
unfolding encrypt_plaintext_secrets
encrypt_plaintext_secrets-unkeyed cipher key nonces faults now rows k = rw k refl

module _ (o : Outside) (aead : IsAead o.cipher)
    (draws : (k : Text) → IsDraw o.cipher (o.nonces k)) where
  -- What EncryptPlaintextSecrets leaves of the rows.
  abbrev sealed_rows : ℕ → List Setting → List Setting
  sealed_rows now rows = (encrypt_plaintext_secrets o.cipher o.key o.nonces o.faults now rows).0

  sealed_reads :
      (now : ℕ) (rows : List Setting)
      → IsWellFormed rows
      → reads o.cipher o.key (sealed_rows now rows) ≡ reads o.cipher o.key rows
  sealed_reads now rows w = elim (Bool-cases (is_nil o.key)) [
    | inl k ↦
        ap (λ (x : List Setting). reads o.cipher o.key x)
          (ap (λ x. x.0)
            (encrypt_plaintext_secrets-unkeyed o.cipher o.key o.nonces o.faults now rows k))
    | inr k ↦
        (encrypt_plaintext_secrets-IsRewritten o.cipher aead o.key o.nonces draws o.faults now k
          rows w).reads_same
  ]

  boot_config-stored :
      (rows : List Setting) (m : Map) (c : Config)
      → stored_settings o rows ≡ Store.ok m
      → overlaid o m ≡ valid c
      → boot_config o rows ≡ c
  unfolding boot_config
  boot_config-stored rows m c e f = rw (e, boot_config) (rw f refl)

  boot_config_of :
      (now : ℕ) (rows : List Setting) (m : Map) (c : Config)
      → o.faults.query ≡ false
      → IsWellFormed rows
      → reads o.cipher o.key rows ≡ m
      → overlaid o m ≡ valid c
      → boot_config o (sealed_rows now rows) ≡ c
  boot_config_of now rows m c q w e f =
      boot_config-stored (sealed_rows now rows) m c
        (get_all_ok o.cipher o.key o.faults (sealed_rows now rows) q
          ∙ ap Store.ok (sealed_reads now rows w ∙ e))
        f

  -- What a start makes of the rows that a save left.
  abbrev pub IsRestarted : ℕ → Table → Process × Option ApplyError → Type 0
  IsRestarted now t (p, none) =
      (q : Process) × (boot o now p.settings t ≡ built q) × (q.live ≡ p.live)
  IsRestarted now t (p, some (reload_after_save (Reload.build_failed e))) =
      boot o now p.settings t ≡ failed e
  IsRestarted now t (p, some e) = Unit

  boot-started :
      (now : ℕ) (rows : List Setting) (t : Table) (c : Config)
      (r : Outcome (Built × Option Discovered))
      → boot_config o (sealed_rows now rows) ≡ c
      → build_runtime_with o c none ≡ r
      → boot o now rows t ≡ started now (sealed_rows now rows) t r
  unfolding boot
  boot-started now rows t c r e f =
      ap (started now (sealed_rows now rows) t)
        (ap (λ (x : Config). build_runtime_with o x none) e ∙ f)

  restarted :
      (later : Faults) (now now' : ℕ) (up : ConfigUpdate) (p : Process) (t : Table)
      (r : Process × Option ApplyError)
      → o.faults.query ≡ false
      → IsApplied o aead draws later now up p r
      → IsRestarted now' t r
  restarted later now now' up p t (p', none) q (saved, running, (d, builds), reset) = (
    _,
    boot-started now' p'.settings t p'.live.config (built (p'.live, d))
        (boot_config_of now' p'.settings (posted o aead draws later now up p) p'.live.config q
          saved.0 saved.1 running)
        builds,
    refl,
  )
  restarted later now now' up p t (p', some (reload_after_save (Reload.build_failed e))) q
        (saved, same, (c, running, fails)) =
      boot-started now' p'.settings t c (failed e)
        (boot_config_of now' p'.settings (posted o aead draws later now up p) c q saved.0 saved.1
          running)
        fails
  restarted later now now' up p t (p', some (reload_after_save (Reload.load_failed e))) q w = tt
  restarted later now now' up p t (p', some (reload_after_save (Reload.bad_settings e))) q w = tt
  restarted later now now' up p t (p', some (load_failed e)) q w = tt
  restarted later now now' up p t (p', some (rejected e)) q w = tt
  restarted later now now' up p t (p', some (save_failed e)) q w = tt

  -- A start after a save runs exactly the runtime that the save swapped in; and where the save could
  -- not build a client, so that it reported the settings as saved but not applied, the process does
  -- not start any more: New fails with the same error.
  pub apply_settings-IsRestarted :
      (later : Faults) (now now' : ℕ) (up : ConfigUpdate) (p : Process) (t : Table)
      → o.faults.query ≡ false
      → IsWellFormed p.settings
      → reads_back o.key up.plex_token ≡ true
      → reads_back o.key up.jellyfin_token ≡ true
      → IsRestarted now' t (apply_settings o later now up p)
  apply_settings-IsRestarted later now now' up p t q w x y =
      restarted later now now' up p t (apply_settings o later now up p) q
        (apply_settings-IsApplied o aead draws later now up p w x y)
