-- ===== src/Storage/Paths.antt =====
-- pathIsUnderRoot of internal/storage/manager.go, with the part of path/filepath that it stands on
-- (Unix separators). An absolute path is the list of its names; os.Getwd gives an absolute path.
pub mod Containment
use mathlib.Core.List.{reverse}
use plex_mirror.Base.{
  Bool, true, false, not, ◌||◌, Option, none, some, List, [], ◌∷◌, ◌++◌, map, if◌then◌else◌, ◌==◌,
  Text, text_eq, is_empty, codes,
}

abbrev pub dot : Text
dot = codes "."

abbrev pub dotdot : Text
dotdot = codes ".."

abbrev prepend : Text → List Text → List Text
prepend c [] = c ∷ []
prepend c (x ∷ xs) = (c ++ x) ∷ xs

-- strings.Split(path, "/")
unfoldable pub split : Text → List Text
split [] = [] ∷ []
split (c ∷ cs) = let rest = split cs in if c == b'/' then [] ∷ rest else prepend (c ∷ []) rest

-- How one element of a path moves a rooted path, whose last name stands first.
unfoldable pub enter : List Text → Text → List Text
unfolding text_eq
enter names c =
    if is_empty c || text_eq c dot
    then names
    else if text_eq c dotdot
    then elim names [ [] ↦ [] | _ ∷ up ↦ up ]
    else c ∷ names

-- filepath.Clean of a rooted path.
unfoldable pub resolve : List Text → List Text → List Text
unfolding enter
resolve names [] = reverse names
resolve names (c ∷ cs) = resolve (enter names c) cs

abbrev pub is_abs : Text → Bool
is_abs [] = false
is_abs (c ∷ cs) = c == b'/'

-- filepath.Abs; it fails where os.Getwd does.
unfoldable pub abs : Option Text → Text → Option (List Text)
unfolding split resolve
abs cwd path =
    if is_abs path
    then some (resolve [] (split path))
    else elim cwd [ none ↦ none | some wd ↦ some (resolve [] (split wd ++ split path)) ]

-- filepath.Rel of two rooted paths, as the list of the elements of its result; "." is no element.
unfoldable pub rel : List Text → List Text → List Text
unfolding text_eq
rel [] target = target
rel (b ∷ base) [] = map (λ _. dotdot) (b ∷ base)
rel (b ∷ base) (t ∷ target) =
    if text_eq t b then rel base target else map (λ _. dotdot) (b ∷ base) ++ t ∷ target

-- `rel` is ".", or is ".." or begins with "../": the media root itself, or outside it.
unfoldable pub inside : List Text → Bool
unfolding text_eq
inside [] = false
inside (x ∷ xs) = not (text_eq x dotdot)

infixl 5 ◌>>=◌
abbrev ◌>>=◌ {ℓ κ} : {A : Type ℓ} {B : Type κ} → Option A → (A → Option B) → Option B
none >>= f = none
some a >>= f = f a

-- `none` is an error.
unfoldable pub path_is_under_root : Option Text → Text → Text → Option Bool
unfolding abs rel inside
path_is_under_root cwd root candidate =
    if is_empty root || is_empty candidate
    then none
    else do r ← abs cwd root; c ← abs cwd candidate; some (inside (rel r c))
