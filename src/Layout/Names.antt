-- ===== src/Layout/Names.antt =====
-- The names that Final of internal/download/layout.go puts together.
use mathlib.Core.Bool.{false≢true}
use plex_mirror.Base.{
  ℕ, ◌≡◌, refl, sym, ◌⊎◌, inl, inr, true, false, none, [], ◌∷◌, ◌++◌, arith, ltb, Text, codes,
  text_eq, is_empty, to_lower, lower, trim_prefix, drop_length, has_prefix, All, All-map,
  All-append, Bool-cases,
}
use plex_mirror.Base.Decimal.{show_nat, show_two, is_digit}
use plex_mirror.Base.Decimal.Inverse.{IsDigit, show_nat-IsDigit}
use plex_mirror.Config.{validate_library_dir, has_separator}
use plex_mirror.Source.{Item}
use plex_mirror.Layout.Sanitize.{sanitize}
use plex_mirror.Layout.Sanitize.Safe.{IsSafe, sanitize-IsSafe}
use plex_mirror.Layout.Sanitize.Headed.{IsHeaded, sanitize-IsHeaded}
use plex_mirror.Layout.Joined.{IsInner, IsElement}
use plex_mirror.Layout.{dir_or, extension, movie_name, episode_title, episode_base, magnitude}

-- A name that begins with no dot and holds no separator.
abbrev pub IsPlain : Text → Type 0
IsPlain x = (is_empty x ≡ false) × IsHeaded x × All IsInner x

pub IsPlain-IsElement : (x : Text) → IsPlain x → IsElement x
unfolding text_eq
IsPlain-IsElement [] (e, h, i) = absurd (false≢true (sym e))
IsPlain-IsElement (c ∷ cs) (e, h, i) = (e, rw h refl, rw h refl, i)

pub IsPlain-append : (x y : Text) → IsPlain x → All IsInner y → IsPlain (x ++ y)
IsPlain-append [] y (e, h, i) k = absurd (false≢true (sym e))
IsPlain-append (c ∷ cs) y (e, h, i) k = (refl, h, All-append IsInner (c ∷ cs) y i k)

pub sanitize-IsInner : (s : Text) → All IsInner (sanitize s)
sanitize-IsInner s =
    All-map IsSafe IsInner (λ c h. ground (arith, h.0)) (sanitize s) (sanitize-IsSafe s)

pub sanitize-IsPlain : (s : Text) → is_empty (sanitize s) ≡ false → IsPlain (sanitize s)
sanitize-IsPlain s e = (e, sanitize-IsHeaded s, sanitize-IsInner s)

digit-IsInner : (c : ℕ) → IsDigit c → IsInner c
unfolding is_digit
digit-IsInner c h = ground (arith, h)

show_nat-IsInner : (n : ℕ) → All IsInner (show_nat n)
show_nat-IsInner n = All-map IsDigit IsInner digit-IsInner (show_nat n) (show_nat-IsDigit n)

show_two-cases : (n : ℕ) → (show_two n ≡ b'0' ∷ show_nat n) ⊎ (show_two n ≡ show_nat n)
unfolding show_two
show_two-cases n = elim (Bool-cases (ltb n 10)) [
  | inl e ↦ inl (rw e refl)
  | inr e ↦ inr (rw e refl)
]

show_two-IsInner : (n : ℕ) → All IsInner (show_two n)
show_two-IsInner n = elim (show_two-cases n) [
  | inl e ↦ rw e (refl, show_nat-IsInner n)
  | inr e ↦ rw e (show_nat-IsInner n)
]

lower-IsInner : (c : ℕ) → IsInner c → IsInner (lower c)
unfolding lower
lower-IsInner c h = ground arith

to_lower-IsInner : (s : Text) → All IsInner s → All IsInner (to_lower s)
unfolding to_lower
to_lower-IsInner [] h = tt
to_lower-IsInner (c ∷ cs) h = (lower-IsInner c h.0, to_lower-IsInner cs h.1)

drop_length-IsInner : (p s : Text) → All IsInner s → All IsInner (drop_length p s)
drop_length-IsInner [] s h = h
drop_length-IsInner (p ∷ ps) [] h = tt
drop_length-IsInner (p ∷ ps) (c ∷ cs) h = drop_length-IsInner ps cs h.1

pub extension-IsInner : (item : Item) → All IsInner item.container → All IsInner (extension item)
unfolding extension trim_prefix
extension-IsInner item h = elim (Bool-cases (has_prefix (codes ".") (to_lower item.container))) [
  | inl e ↦ rw e (drop_length-IsInner (codes ".") (to_lower item.container) lowered)
  | inr e ↦ rw e lowered
]
  where
    lowered : All IsInner (to_lower item.container)
    lowered = to_lower-IsInner item.container h

-- A name of a library directory, where it is given.
abbrev pub IsDirName : Text → Type 0
IsDirName d = (is_empty d ≡ true) ⊎ (validate_library_dir d ≡ none)

has_separator-IsInner : (s : Text) → has_separator s ≡ false → All IsInner s
unfolding has_separator
has_separator-IsInner [] h = tt
has_separator-IsInner (c ∷ cs) h = (ground (arith, h), has_separator-IsInner cs (ground (arith, h)))

validate_library_dir-IsPlain : (d : Text) → validate_library_dir d ≡ none → IsPlain d
unfolding validate_library_dir has_prefix
validate_library_dir-IsPlain [] h = cc
validate_library_dir-IsPlain (c ∷ cs) h =
    (refl, ground (arith, h), has_separator-IsInner (c ∷ cs) (ground (arith, h)))

pub dir_or-IsPlain : (d def : Text) → IsDirName d → IsPlain def → IsPlain (dir_or d def)
unfolding dir_or
dir_or-IsPlain d def (inl e) p = rw e p
dir_or-IsPlain [] def (inr e) p = p
dir_or-IsPlain (c ∷ cs) def (inr e) p = validate_library_dir-IsPlain (c ∷ cs) e

pub movie_name-IsPlain : (title : Text) (year : ℕ) → IsPlain title → IsPlain (movie_name title year)
unfolding movie_name
movie_name-IsPlain title year p = elim (Bool-cases (ltb 0 year)) [
  | inl e ↦ rw e (
      IsPlain-append (title ++ codes " (" ++ show_nat year) (codes ")")
        (IsPlain-append (title ++ codes " (") (show_nat year)
          (IsPlain-append title (codes " (") p (refl, (refl, tt))) (show_nat-IsInner year))
        (refl, tt))
  | inr e ↦ rw e p
]

pub named-IsPlain :
    (name ext : Text) → IsPlain name → All IsInner ext → IsPlain (name ++ codes "." ++ ext)
named-IsPlain name ext p i =
    IsPlain-append (name ++ codes ".") ext (IsPlain-append name (codes ".") p (refl, tt)) i

numbered-IsInner : (n : ℕ) → All IsInner (codes "Episode " ++ show_nat n)
numbered-IsInner n =
    All-append IsInner (codes "Episode ") (show_nat n)
      (refl, (refl, (refl, (refl, (refl, (refl, (refl, (refl, tt)))))))) (show_nat-IsInner n)

pub episode_title-IsInner : (item : Item) → All IsInner (episode_title item)
unfolding episode_title
episode_title-IsInner item = elim (Bool-cases (is_empty (sanitize item.title))) [
  | inl e ↦ rw e (numbered-IsInner (magnitude item.episode_number))
  | inr e ↦ rw e (sanitize-IsInner item.title)
]

pub episode_base-IsPlain :
    (series : Text) (s e : ℕ) (title ext : Text)
    → IsPlain series
    → All IsInner title
    → All IsInner ext
    → IsPlain (episode_base series s e title ext)
unfolding episode_base
episode_base-IsPlain series s e title ext p t x =
    named-IsPlain _ ext
      (IsPlain-append _ title
        (IsPlain-append _ (codes " - ")
          (IsPlain-append _ (show_two e)
            (IsPlain-append _ (codes "e")
              (IsPlain-append _ (show_two s)
                (IsPlain-append series (codes " - s") p (refl, (refl, (refl, (refl, tt)))))
                (show_two-IsInner s))
              (refl, tt))
            (show_two-IsInner e))
          (refl, (refl, (refl, tt))))
        t)
      x

pub season-IsPlain : (s : ℕ) → IsPlain (codes "Season " ++ show_two s)
season-IsPlain s =
    IsPlain-append (codes "Season ") (show_two s)
      (refl, refl, (refl, (refl, (refl, (refl, (refl, (refl, (refl, tt)))))))) (show_two-IsInner s)
