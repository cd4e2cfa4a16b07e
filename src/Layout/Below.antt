-- ===== src/Layout/Below.antt =====
-- Final and Partial of internal/download/layout.go against pathIsUnderRoot of
-- internal/storage/manager.go.
use mathlib.Core.Bool.{false≢true}
use plex_mirror.Base.{
  ℕ, ◌≡◌, refl, sym, inl, inr, Bool, true, false, ◌&&◌, ◌||◌, Option, some, List, [], ◌∷◌, ◌++◌,
  arith, leb, Text, codes, text_eq, is_empty, All, All-map, Bool-cases,
}
use plex_mirror.Source.{Item, ItemKind, movie, show, season, episode, track, other}
use plex_mirror.Storage.Paths.{is_abs, path_is_under_root}
use plex_mirror.Layout.Sanitize.{sanitize}
use plex_mirror.Layout.Joined.{IsInner, IsElement, join_path_under}
use plex_mirror.Layout.Names.{
  IsPlain, IsPlain-IsElement, IsPlain-append, IsDirName, sanitize-IsPlain, extension-IsInner,
  named-IsPlain, dir_or-IsPlain, movie_name-IsPlain, episode_title-IsInner, episode_base-IsPlain,
  season-IsPlain,
}
use plex_mirror.Layout.{
  Layout, Result, ok, err, dir_or, join_path, extension, episode_title, is_negative, magnitude,
  final_movie, final_episode, final_other, final_of_kind, final, partial,
}

-- The layout of a rooted media root, with the directories that Load lets through.
pub record IsPlaced (l : Layout) : Type 0 where
  pub rooted : is_abs l.media_root ≡ true
  pub movies : IsDirName l.movies_dir
  pub shows : IsDirName l.shows_dir
  pub other : IsDirName l.other_dir

join_plain_under :
    (cwd : Option Text) (root x : Text) (xs : List Text)
    → is_abs root ≡ true
    → All IsPlain (x ∷ xs)
    → path_is_under_root cwd root (join_path (root ∷ x ∷ xs)) ≡ some true
join_plain_under cwd root x xs a h =
    join_path_under cwd root x xs a (All-map IsPlain IsElement IsPlain-IsElement (x ∷ xs) h)

-- A path that Final returns passes the guard.
abbrev IsGuarded : Option Text → Layout → Result Text → Type 0
IsGuarded cwd l (ok path) = path_is_under_root cwd l.media_root path ≡ some true
IsGuarded cwd l (err e) = Unit

of_ok : {x y : Text} → Path (Result Text) (ok x) (ok y) → x ≡ y
of_ok e = cc

IsGuarded-ok :
    (cwd : Option Text) (l : Layout) (r : Result Text) (path : Text)
    → IsGuarded cwd l r
    → r ≡ ok path
    → path_is_under_root cwd l.media_root path ≡ some true
IsGuarded-ok cwd l (ok p) path g e = rw (of_ok e) at g
IsGuarded-ok cwd l (err x) path g e = cc

module _ (cwd : Option Text) (l : Layout) (placed : IsPlaced l) (item : Item) (ext : Text)
    (x : All IsInner ext) where
  final_movie-IsGuarded : IsGuarded cwd l (final_movie l item ext)
  unfolding final_movie
  final_movie-IsGuarded = elim (Bool-cases (is_empty (sanitize item.title))) [
    | inl e ↦ rw e tt
    | inr e ↦ rw e (
        join_plain_under cwd l.media_root (dir_or l.movies_dir (codes "movies")) _ placed.rooted (
          dir_or-IsPlain l.movies_dir (codes "movies") placed.movies
              (refl, refl, (refl, (refl, (refl, (refl, (refl, (refl, tt))))))),
          (
            named-IsPlain _ ext
                (movie_name-IsPlain (sanitize item.title) item.year (sanitize-IsPlain item.title e))
                x,
            tt,
          ),
        ))
  ]

  final_other-IsGuarded : IsGuarded cwd l (final_other l item ext)
  unfolding final_other
  final_other-IsGuarded = elim (Bool-cases (is_empty (sanitize item.title))) [
    | inl e ↦ rw e tt
    | inr e ↦ rw e (
        join_plain_under cwd l.media_root (dir_or l.other_dir (codes "other")) _ placed.rooted (
          dir_or-IsPlain l.other_dir (codes "other") placed.other
              (refl, refl, (refl, (refl, (refl, (refl, (refl, tt)))))),
          (named-IsPlain (sanitize item.title) ext (sanitize-IsPlain item.title e) x, tt),
        ))
  ]

  final_episode-IsGuarded : IsGuarded cwd l (final_episode l item ext)
  unfolding final_episode
  final_episode-IsGuarded = elim (Bool-cases (is_empty (sanitize item.show_title))) [
    | inl e ↦ rw e tt
    | inr e ↦
        elim (Bool-cases (is_negative item.season_number || is_negative item.episode_number)) [
          | inl n ↦ rw (e, n) tt
          | inr n ↦
              rw (e, n)
                (join_plain_under cwd l.media_root (dir_or l.shows_dir (codes "shows")) _
                  placed.rooted
                  (
                    dir_or-IsPlain l.shows_dir (codes "shows") placed.shows
                        (refl, refl, (refl, (refl, (refl, (refl, (refl, tt)))))),
                    (
                      sanitize-IsPlain item.show_title e,
                      (
                        season-IsPlain (magnitude item.season_number),
                        (
                          episode_base-IsPlain (sanitize item.show_title)
                              (magnitude item.season_number) (magnitude item.episode_number)
                              (episode_title item) ext (sanitize-IsPlain item.show_title e)
                              (episode_title-IsInner item) x,
                          tt,
                        ),
                      ),
                    ),
                  ))
        ]
  ]

  final_of_kind-IsGuarded : (kind : ItemKind) → IsGuarded cwd l (final_of_kind kind l item ext)
  unfolding final_of_kind
  final_of_kind-IsGuarded movie = final_movie-IsGuarded
  final_of_kind-IsGuarded episode = final_episode-IsGuarded
  final_of_kind-IsGuarded show = final_other-IsGuarded
  final_of_kind-IsGuarded season = final_other-IsGuarded
  final_of_kind-IsGuarded track = final_other-IsGuarded
  final_of_kind-IsGuarded other = final_other-IsGuarded

final-IsGuarded :
    (cwd : Option Text) (l : Layout) (item : Item)
    → IsPlaced l
    → All IsInner item.container
    → IsGuarded cwd l (final l item)
unfolding final
final-IsGuarded cwd l item placed c = elim (Bool-cases (is_empty l.media_root)) [
  | inl m ↦ rw m tt
  | inr m ↦ elim (Bool-cases (is_empty (extension item))) [
    | inl e ↦ rw (m, e) tt
    | inr e ↦
        rw (m, e)
          (final_of_kind-IsGuarded cwd l placed item (extension item) (extension-IsInner item c)
            item.kind)
  ]
]

-- What encoding/hex documents: the text of some bytes is lower-case hexadecimal digits.
abbrev pub is_hex : ℕ → Bool
is_hex c = (leb b'0' c && leb c b'9') || (leb b'a' c && leb c b'f')

pub record IsHex (s : Text) : Type 0 where
  pub filled : is_empty s ≡ false
  pub digits : All (λ c. is_hex c ≡ true) s

IsHex-IsPlain : (s : Text) → IsHex s → IsPlain s
IsHex-IsPlain [] h = absurd (false≢true (sym h.filled))
IsHex-IsPlain (c ∷ cs) h = (
  refl,
  ground (arith, h.digits.0),
  All-map (λ c. is_hex c ≡ true) IsInner (λ d k. ground (arith, k)) (c ∷ cs) h.digits,
)

partial-IsGuarded :
    (cwd : Option Text) (digest : Text → Text) (l : Layout) (src source_key : Text)
    → is_abs l.media_root ≡ true
    → IsHex (digest (src ++ codes ":" ++ source_key))
    → path_is_under_root cwd l.media_root (partial digest l src source_key) ≡ some true
unfolding partial text_eq
partial-IsGuarded cwd digest l src source_key a h =
    join_path_under cwd l.media_root (codes ".partials") _ a (
      (
        refl,
        refl,
        refl,
        (refl, (refl, (refl, (refl, (refl, (refl, (refl, (refl, (refl, tt))))))))),
      ),
      (
        IsPlain-IsElement _ (
            IsPlain-append (digest (src ++ codes ":" ++ source_key)) (codes ".tmp")
              (IsHex-IsPlain (digest (src ++ codes ":" ++ source_key)) h)
              (refl, (refl, (refl, (refl, tt))))),
        tt,
      ),
    )

-- Every file of the engine lies below the media root, where the root is absolute, the directories
-- are ones that Load lets through, and the container has no slash: the final path of any item, for
-- any title, show and numbers, passes the guard of the eviction, and so does the partial path.
pub final_under_root :
    (cwd : Option Text) (digest : Text → Text) (l : Layout) (src path : Text) (item : Item)
    → IsPlaced l
    → ((s : Text) → IsHex (digest s))
    → All IsInner item.container
    → final l item ≡ ok path
    → (path_is_under_root cwd l.media_root path ≡ some true)
      × (path_is_under_root cwd l.media_root (partial digest l src item.id) ≡ some true)
final_under_root cwd digest l src path item placed hex c e = (
  IsGuarded-ok cwd l (final l item) path (final-IsGuarded cwd l item placed c) e,
  partial-IsGuarded cwd digest l src item.id placed.rooted (hex (src ++ codes ":" ++ item.id)),
)
