-- ===== src/Service/Settings/View/Shown.antt =====
-- ConfigView of internal/service/settings.go: what it shows is what is in force.
use mathlib.Core.Path.{subst}
use plex_mirror.Base.{
  ℕ, ◌<◌, ◌^◌, ◌≡◌, refl, sym, ap, ◌∙◌, inl, inr, ◌==◌, ==_iff, true, false, Option, none, some,
  List, [], if◌then◌else◌, Text, codes, is_empty, trim_space, Bool-cases,
}
use plex_mirror.Base.Int.{ℤ, pos, leb_int}
use plex_mirror.Base.Decimal.{show_nat}
use plex_mirror.Base.Decimal.Inverse.{show_nat_filled, show_nat-IsDigit}
use plex_mirror.Config.{
  Config, Checked, valid, check_size, parse_size, check_buffer, max_download_buffer,
}
use plex_mirror.Config.Printed.{parse_size-show_nat, trim_space-digits}
use plex_mirror.Config.Valid.{IsCount, IsBuffer, IsValid, Ensures-valid}
use plex_mirror.Service.Settings.View.Sizes.{Sizes, effective-Sizes}
use plex_mirror.Settings.{when_present, when_filled}
use plex_mirror.Settings.Store.{Setting, Attempt, Map, SecretStatus, secret_state}
use plex_mirror.Settings.Store
use plex_mirror.Service.Settings.View.{
  ConfigView, shown_bytes, cap_view, buffer_view, view_of, with_state, config_view,
}
use plex_mirror.Service.Reload.{Outside, stored_settings, overlaid, or_base}

check_size-printed : (key : Text) (n : ℕ) → n < 2 ^ 63 → check_size key (show_nat n) ≡ valid (pos n)
unfolding check_size
check_size-printed key n h = rw (parse_size-show_nat n h) refl

check_size-blank : (key : Text) → check_size key [] ≡ valid (pos 0)
unfolding check_size parse_size
check_size-blank key = refl

check_size-shown : (key : Text) (z : ℤ) → IsCount z → check_size key (shown_bytes z) ≡ valid z
check_size-shown key z (n, e, h) = rw e (elim (Bool-cases (n == 0)) [
  | inl f ↦ rw (f, (==_iff n 0).0 f) (check_size-blank key)
  | inr f ↦ rw f (check_size-printed key n h)
])

of_valid : {a b : ℤ} → Path (Checked ℤ) (valid a) (valid b) → a ≡ b
of_valid e = cc

cap_view-shown :
    (vals : Map) (key : Text) (base z : ℤ)
    → IsCount base
    → when_present (vals key) base (check_size key) ≡ valid z
    → check_size key (cap_view vals key z) ≡ valid z
unfolding cap_view when_present
cap_view-shown vals key base z b e = shown (vals key) e
  where
    shown :
        (v : Option Text)
        → when_present v base (check_size key) ≡ valid z
        → check_size key (elim v [ some raw ↦ raw | none ↦ shown_bytes z ]) ≡ valid z
    shown none e = check_size-shown key z (rw (of_valid e) at b)
    shown (some raw) e = e

check_buffer-printed :
    (key : Text) (n : ℕ)
    → n < 2 ^ 63
    → leb_int (pos n) (pos max_download_buffer) ≡ true
    → check_buffer key (show_nat n) ≡ valid (pos n)
unfolding check_buffer
check_buffer-printed key n h k = rw (check_size-printed key n h) (rw k refl)

when_filled_blank :
    (v : Text) (base : ℤ) (check : Text → Checked ℤ)
    → is_empty (trim_space v) ≡ true
    → when_filled (some v) base check ≡ valid base
unfolding when_filled
when_filled_blank v base check e = rw e refl

when_filled_text :
    (v : Text) (base : ℤ) (check : Text → Checked ℤ)
    → is_empty (trim_space v) ≡ false
    → when_filled (some v) base check ≡ check v
unfolding when_filled
when_filled_text v base check e = rw e refl

blank_blank : is_empty (trim_space []) ≡ true
unfolding trim_space
blank_blank = refl

-- A shown buffer is the one in force, where a blank one keeps it.
buffer-shown :
    (z : ℤ)
    → IsBuffer z
    → when_filled (some (shown_bytes z)) z (check_buffer (codes "download.buffer")) ≡ valid z
buffer-shown z ((n, e, h), k) = rw e (elim (Bool-cases (n == 0)) [
  | inl f ↦ rw f (when_filled_blank [] (pos n) (check_buffer (codes "download.buffer")) blank_blank)
  | inr f ↦ rw f (
      when_filled_text (show_nat n) (pos n) (check_buffer (codes "download.buffer"))
        (rw (trim_space-digits (show_nat n) (show_nat-IsDigit n)) (show_nat_filled n))
      ∙ check_buffer-printed (codes "download.buffer") n h (rw e at k))
])

buffer_view-shown :
    (vals : Map) (base z : ℤ)
    → IsBuffer base
    → when_filled (vals (codes "download.buffer")) base (check_buffer (codes "download.buffer"))
      ≡ valid z
    → when_filled (some (buffer_view vals z)) base (check_buffer (codes "download.buffer"))
      ≡ valid z
unfolding buffer_view when_filled
buffer_view-shown vals base z b e = shown (vals (codes "download.buffer")) e
  where
    shown :
        (v : Option Text)
        → when_filled v base (check_buffer (codes "download.buffer")) ≡ valid z
        → when_filled
            (some (elim v [
              | none ↦ shown_bytes z
              | some raw ↦ if is_empty (trim_space raw) then shown_bytes z else raw
            ]))
            base
            (check_buffer (codes "download.buffer"))
          ≡ valid z
    shown none e = rw (of_valid e) (buffer-shown z (rw (of_valid e) at b))
    shown (some raw) e = elim (Bool-cases (is_empty (trim_space raw))) [
      | inl f ↦
          let same =
            of_valid
              (sym (when_filled_blank raw base (check_buffer (codes "download.buffer")) f) ∙ e) in
          rw (f, same) (buffer-shown z (rw same at b))
      | inr f ↦ rw f e
    ]

-- The sizes that a page shows read as those of a configuration.
abbrev pub IsShown : Config → Config → ConfigView → Type 0
IsShown base c view =
    (check_size (codes "storage.hard_cap") view.storage_hard_cap ≡ valid c.storage_hard_cap_bytes)
    × (check_size (codes "storage.soft_cap") view.storage_soft_cap ≡ valid c.storage_soft_cap_bytes)
    × (when_filled (some view.download_buffer) base.download_buffer_bytes
          (check_buffer (codes "download.buffer"))
        ≡ valid c.download_buffer_bytes)

module _ (o : Outside) (show_duration : ℤ → Text) where
  view_of-IsShown :
      (vals : Map) (state : Text → Option SecretStatus) (c : Config)
      → IsValid o.base
      → overlaid o vals ≡ valid c
      → IsShown o.base c (view_of o show_duration vals state c)
  view_of-IsShown vals state c w e =
      let sizes =
        Ensures-valid (Sizes o.parse_duration vals o.base) (overlaid o vals) c
          (effective-Sizes o.parse_duration vals o.base) e in
      (
        cap_view-shown vals (codes "storage.hard_cap") o.base.storage_hard_cap_bytes
            c.storage_hard_cap_bytes w.hard_cap sizes.hard,
        cap_view-shown vals (codes "storage.soft_cap") o.base.storage_soft_cap_bytes
            c.storage_soft_cap_bytes w.soft_cap sizes.soft,
        buffer_view-shown vals o.base.download_buffer_bytes c.download_buffer_bytes w.buffer
            sizes.buffer,
      )

  -- Whatever way the caps and the buffer were written, in the environment or on the page, the
  -- settings page shows them so that posting them back unchanged keeps the values in force.
  pub config_view-IsShown :
      (rows : List Setting) (vals : Map) (c : Config) (view : ConfigView)
      → IsValid o.base
      → stored_settings o rows ≡ Store.ok vals
      → overlaid o vals ≡ valid c
      → config_view o show_duration rows ≡ Store.ok view
      → IsShown o.base c view
  unfolding config_view
  config_view-IsShown rows vals c view w e f h =
      shown (secret_state o.cipher o.key o.faults rows) (rw (e, config_view) at h)
    where
      shown :
          (s : Attempt (Text → Option SecretStatus))
          → with_state o show_duration vals s ≡ Store.ok view
          → IsShown o.base c view
      shown (Store.err x) h = cc
      shown (Store.ok state) h =
          let same : view_of o show_duration vals state (or_base o (overlaid o vals)) ≡ view = cc in
          let running : or_base o (overlaid o vals) ≡ c = ap (or_base o) f in
          rw (← same) (
            subst (λ (x : Config). IsShown o.base c (view_of o show_duration vals state x))
              (sym running) (view_of-IsShown vals state c w f))
