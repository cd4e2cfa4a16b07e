-- ===== src/Layout.antt =====
-- internal/download/layout.go: where an item's file goes.
pub mod Sanitize
pub mod Joined
pub mod Names
pub mod Below
use mathlib.Core.List.{reverse}
use plex_mirror.Base.{
  ℕ, Bool, true, false, not, ◌&&◌, ◌||◌, Option, none, some, List, [], ◌∷◌, ◌++◌, map,
  if◌then◌else◌, ◌==◌, ltb, Text, text_eq, is_empty, codes, trim_prefix, to_lower,
}
use plex_mirror.Base.Int.{ℤ, pos, negsuc}
use plex_mirror.Base.Decimal.{show_nat, show_two}
use plex_mirror.Source.{Item, ItemKind, movie, show, season, episode, track, other}
use plex_mirror.Storage.Paths.{is_abs, split, resolve, dot, dotdot}
use Sanitize.{sanitize}

pub record Layout : Type 0 where
  pub media_root : Text
  pub movies_dir : Text
  pub shows_dir : Text
  pub other_dir : Text

pub data LayoutError : Type 0 where
  media_root_required no_container no_title no_show_title negative_number : LayoutError

pub data Result {ℓ} (A : Type ℓ) : Type ℓ where
  ok : A → Result A
  err : LayoutError → Result A

pub dir_or : Text → Text → Text
dir_or name def = if is_empty name then def else name

-- strings.Join(names, "/")
unfoldable pub join_names : List Text → Text
join_names [] = []
join_names (x ∷ []) = x
join_names (x ∷ y ∷ ys) = x ++ b'/' ∷ join_names (y ∷ ys)

-- The names of a path that is not rooted, cleaned; ".." stays where nothing is left to climb.
unfoldable pub resolve_relative : List Text → List Text → List Text
unfolding text_eq
resolve_relative names [] = reverse names
resolve_relative names (c ∷ cs) =
    resolve_relative
      (if is_empty c || text_eq c dot
        then names
        else if text_eq c dotdot
        then climb names
        else c ∷ names)
      cs
  where
    climb : List Text → List Text
    climb [] = dotdot ∷ []
    climb (x ∷ up) = if text_eq x dotdot then dotdot ∷ x ∷ up else up

-- filepath.Clean
unfoldable pub clean : Text → Text
unfolding split resolve join_names resolve_relative
clean p =
    let relative = join_names (resolve_relative [] (split p)) in
    if is_abs p
    then b'/' ∷ join_names (resolve [] (split p))
    else if is_empty relative
    then dot
    else relative

abbrev nonempty : List Text → List Text
nonempty [] = []
nonempty ([] ∷ xs) = nonempty xs
nonempty ((c ∷ cs) ∷ xs) = (c ∷ cs) ∷ nonempty xs

-- filepath.Join
unfoldable pub join_path : List Text → Text
unfolding clean
join_path xs = elim (nonempty xs) [ [] ↦ [] | x ∷ rest ↦ clean (join_names (x ∷ rest)) ]

abbrev is_negative : ℤ → Bool
is_negative (pos n) = false
is_negative (negsuc n) = true

abbrev magnitude : ℤ → ℕ
magnitude (pos n) = n
magnitude (negsuc n) = 0

pub extension : Item → Text
unfolding trim_prefix to_lower
extension item = trim_prefix (codes ".") (to_lower item.container)

-- "%s (%d)" where the year is known.
pub movie_name : Text → ℕ → Text
movie_name title year =
    if ltb 0 year then title ++ codes " (" ++ show_nat year ++ codes ")" else title

-- The default title of an episode.
pub episode_title : Item → Text
episode_title item =
    let title = sanitize item.title in
    if is_empty title then codes "Episode " ++ show_nat (magnitude item.episode_number) else title

-- "%s - s%02de%02d - %s.%s"
pub episode_base : Text → ℕ → ℕ → Text → Text → Text
episode_base series s e title ext =
    series
    ++ codes " - s"
    ++ show_two s
    ++ codes "e"
    ++ show_two e
    ++ codes " - "
    ++ title
    ++ codes "."
    ++ ext

final_movie : Layout → Item → Text → Result Text
unfolding sanitize movie_name join_path dir_or
final_movie l item ext =
    let title = sanitize item.title in
    if is_empty title
    then err no_title
    else ok (
        join_path (
          l.media_root
          ∷ dir_or l.movies_dir (codes "movies")
          ∷ (movie_name title item.year ++ codes "." ++ ext)
          ∷ []))

final_episode : Layout → Item → Text → Result Text
unfolding sanitize episode_title episode_base join_path dir_or show_two
final_episode l item ext =
    let series = sanitize item.show_title in
    let s = magnitude item.season_number in
    let e = magnitude item.episode_number in
    if is_empty series
    then err no_show_title
    else if is_negative item.season_number || is_negative item.episode_number
    then err negative_number
    else ok (
        join_path (
          l.media_root
          ∷ dir_or l.shows_dir (codes "shows")
          ∷ series
          ∷ (codes "Season " ++ show_two s)
          ∷ episode_base series s e (episode_title item) ext
          ∷ []))

final_other : Layout → Item → Text → Result Text
unfolding sanitize join_path dir_or
final_other l item ext =
    let title = sanitize item.title in
    if is_empty title
    then err no_title
    else ok (
        join_path
          (l.media_root ∷ dir_or l.other_dir (codes "other") ∷ (title ++ codes "." ++ ext) ∷ []))

-- The switch of Final on the item's kind.
final_of_kind : ItemKind → Layout → Item → Text → Result Text
unfolding final_movie final_episode final_other
final_of_kind movie l item ext = final_movie l item ext
final_of_kind episode l item ext = final_episode l item ext
final_of_kind _ l item ext = final_other l item ext

unfoldable pub final : Layout → Item → Result Text
unfolding extension final_of_kind
final l item =
    let ext = extension item in
    if is_empty l.media_root
    then err media_root_required
    else if is_empty ext
    then err no_container
    else final_of_kind item.kind l item ext

-- `digest` is the hex form of the first eight bytes of the SHA-256 sum.
unfoldable pub partial : (Text → Text) → Layout → Text → Text → Text
unfolding join_path
partial digest l src source_key = join_path (
    l.media_root
    ∷ codes ".partials"
    ∷ (digest (src ++ codes ":" ++ source_key) ++ codes ".tmp")
    ∷ [])
