-- ===== src/Service/Settings/View.antt =====
-- ConfigView of internal/service/settings.go: what the settings page shows. time.Duration's String is
-- a parameter.
pub mod Sizes
pub mod Shown
use plex_mirror.Base.{
  ℕ, suc, ◌==◌, Bool, true, false, not, Option, none, some, List, [], ◌∷◌, if◌then◌else◌, Text,
  codes, is_empty, trim_space,
}
use plex_mirror.Base.Int.{ℤ, pos, negsuc}
use plex_mirror.Base.Decimal.{show_nat}
use plex_mirror.Config.{Config}
use plex_mirror.Settings.Crypto.{is_nil}
use plex_mirror.Settings.Store.{
  Setting, StoreError, Attempt, Map, secret_state, SecretStatus, set, unset, unreadable,
}
use plex_mirror.Settings.Store
use plex_mirror.Service.Reload.{Outside, stored_settings, overlaid, or_base}

pub record ConfigView : Type 0 where
  pub media_root : Text
  pub secret_key_set : Bool
  pub auth_enabled : Bool
  pub plex_url : Text
  pub plex_server : Text
  pub plex_client_id : Text
  pub jellyfin_url : Text
  pub jellyfin_user : Text
  pub movies_dir : Text
  pub shows_dir : Text
  pub other_dir : Text
  pub storage_hard_cap : Text
  pub storage_soft_cap : Text
  pub download_concurrency : Text
  pub download_poll_every : Text
  pub download_buffer : Text
  pub health_check_every : Text
  pub plex_token_set : Bool
  pub plex_token_unreadable : Bool
  pub jellyfin_token_set : Bool
  pub jellyfin_token_unreadable : Bool

-- tokenBadge: whether it is set, and whether it is unreadable
abbrev pub token_badge : Option SecretStatus → Text → Bool × Bool
token_badge (some set) token = (true, false)
token_badge (some unreadable) token = (false, true)
token_badge (some unset) token = (false, false)
token_badge none token = (not (is_empty token), false)

-- strconv.FormatInt of a positive number, and "" of any other
abbrev pub shown_bytes : ℤ → Text
shown_bytes (pos n) = if n == 0 then [] else show_nat n
shown_bytes (negsuc n) = []

unfoldable pub cap_view : Map → Text → ℤ → Text
unfolding show_nat
cap_view vals key bytes = elim (vals key) [ some raw ↦ raw | none ↦ shown_bytes bytes ]

unfoldable pub buffer_view : Map → ℤ → Text
unfolding show_nat trim_space
buffer_view vals bytes = elim (vals (codes "download.buffer")) [
  | none ↦ shown_bytes bytes
  | some raw ↦ if is_empty (trim_space raw) then shown_bytes bytes else raw
]

-- strconv.Itoa
abbrev show_int : ℤ → Text
show_int (pos n) = show_nat n
show_int (negsuc n) = b'-' ∷ show_nat (suc n)

module _ (o : Outside) (show_duration : ℤ → Text) where
  abbrev pub view_of : Map → (Text → Option SecretStatus) → Config → ConfigView
  view_of vals state c =
      let plex = token_badge (state (codes "plex.token")) c.plex_token in
      let jellyfin = token_badge (state (codes "jellyfin.token")) c.jellyfin_token in
      record {
        media_root = o.base.media_root;
        secret_key_set = not (is_nil o.key);
        auth_enabled = not (is_empty o.base.auth_token);
        plex_url = c.plex_url;
        plex_server = c.plex_server;
        plex_client_id = c.plex_client_id;
        jellyfin_url = c.jellyfin_url;
        jellyfin_user = c.jellyfin_user;
        movies_dir = c.movies_dir;
        shows_dir = c.shows_dir;
        other_dir = c.other_dir;
        storage_hard_cap = cap_view vals (codes "storage.hard_cap") c.storage_hard_cap_bytes;
        storage_soft_cap = cap_view vals (codes "storage.soft_cap") c.storage_soft_cap_bytes;
        download_concurrency = show_int c.download_concurrency;
        download_poll_every = show_duration c.download_poll_every;
        download_buffer = buffer_view vals c.download_buffer_bytes;
        health_check_every = show_duration c.health_check_every;
        plex_token_set = plex.0;
        plex_token_unreadable = plex.1;
        jellyfin_token_set = jellyfin.0;
        jellyfin_token_unreadable = jellyfin.1;
      }

  abbrev pub with_state : Map → Attempt (Text → Option SecretStatus) → Attempt ConfigView
  with_state vals (Store.err e) = Store.err e
  with_state vals (Store.ok state) = Store.ok (view_of vals state (or_base o (overlaid o vals)))

  -- Stored settings that are invalid show the environment's values.
  unfoldable pub config_view : List Setting → Attempt ConfigView
  unfolding secret_state cap_view buffer_view
  config_view rows = elim (stored_settings o rows) [
    | Store.err e ↦ Store.err e
    | Store.ok vals ↦ with_state vals (secret_state o.cipher o.key o.faults rows)
  ]
