-- ===== src/Layout/Joined.antt =====
-- filepath.Join of internal/download/layout.go on a rooted path and plain names below it.
use mathlib.Core.List.{reverse, reverse-cons, append_assoc, append-nil}
use mathlib.Core.Bool.{false≢true}
use plex_mirror.Base.{
  ℕ, ◌≡◌, refl, sym, ap, ◌∙◌, inl, inr, true, false, Option, some, List, [], ◌∷◌, ◌++◌, ◌==◌, Text,
  text_eq, is_empty, All, All-append, All-reverse, Bool-cases,
}
use plex_mirror.Storage.Paths.{dot, dotdot, split, enter, resolve, is_abs, abs, path_is_under_root}
use plex_mirror.Storage.Paths.Containment.{path_is_under_root_iff}
use plex_mirror.Layout.{join_names, join_path, clean, nonempty}

-- A character that does not separate.
abbrev pub IsInner : ℕ → Type 0
IsInner c = (c == b'/') ≡ false

-- A name that stands for itself in a path.
abbrev pub IsElement : Text → Type 0
IsElement x =
    (is_empty x ≡ false) × (text_eq x dot ≡ false) × (text_eq x dotdot ≡ false) × All IsInner x

split-inner : (x : Text) → All IsInner x → split x ≡ x ∷ []
unfolding split
split-inner [] h = refl
split-inner (c ∷ cs) h = rw (h.0, split-inner cs h.1) refl

split_filled : (s : Text) → (x : Text) × (xs : List Text) × (split s ≡ x ∷ xs)
unfolding split
split_filled [] = ([], [], refl)
split_filled (c ∷ cs) = elim (Bool-cases (c == b'/')) [
  | inl e ↦ rw e ([], _, refl)
  | inr e ↦ let (x, xs, p) = split_filled cs in rw (e, p) (c ∷ x, xs, refl)
]

split-append : (x y : Text) → split (x ++ b'/' ∷ y) ≡ split x ++ split y
unfolding split
split-append [] y = refl
split-append (c ∷ cs) y = elim (Bool-cases (c == b'/')) [
  | inl e ↦ rw e (ap (λ (t : List Text). [] ∷ t) (split-append cs y))
  | inr e ↦ let (x, xs, p) = split_filled cs in rw (e, split-append cs y, p) refl
]

split-All : (s : Text) → All (All IsInner) (split s)
unfolding split
split-All [] = (tt, tt)
split-All (c ∷ cs) = elim (Bool-cases (c == b'/')) [
  | inl e ↦ rw e (tt, split-All cs)
  | inr e ↦
      let (x, xs, p) = split_filled cs in
      let (h, k) = rw p at (split-All cs) in rw (e, p) ((e, h), k)
]

split-join_names :
    (x : Text) (xs : List Text) → All (All IsInner) (x ∷ xs) → split (join_names (x ∷ xs)) ≡ x ∷ xs
unfolding join_names
split-join_names x [] h = split-inner x h.0
split-join_names x (y ∷ ys) h =
    rw (split-append x (join_names (y ∷ ys)), split-inner x h.0, split-join_names y ys h.1) refl

enter-element : (names : List Text) (c : Text) → IsElement c → enter names c ≡ c ∷ names
unfolding enter
enter-element names c (e, d, dd, inner) = rw (e, d, dd) refl

resolve-elements :
    (names cs : List Text) → All IsElement cs → resolve names cs ≡ reverse names ++ cs
unfolding resolve
resolve-elements names [] h = sym (append-nil (reverse names))
resolve-elements names (c ∷ cs) h = rw (enter-element names c h.0) (
    resolve-elements (c ∷ names) cs h.1
    ∙ ap (λ (t : List Text). t ++ cs) (reverse-cons c names)
    ∙ append_assoc (reverse names) (c ∷ []) cs)

resolve-append :
    (names cs ds : List Text) → All IsElement ds → resolve names (cs ++ ds) ≡ resolve names cs ++ ds
unfolding resolve
resolve-append names [] ds h = resolve-elements names ds h
resolve-append names (c ∷ cs) ds h = resolve-append (enter names c) cs ds h

enter-All :
    (names : List Text) (c : Text)
    → All IsInner c
    → All IsElement names
    → All IsElement (enter names c)
unfolding enter
enter-All names c i h = elim (Bool-cases (is_empty c)) [
  | inl e ↦ rw e h
  | inr e ↦ elim (Bool-cases (text_eq c dot)) [
    | inl f ↦ rw (e, f) h
    | inr f ↦ elim (Bool-cases (text_eq c dotdot)) [
      | inl g ↦ rw (e, f, g) (up names h)
      | inr g ↦ rw (e, f, g) ((e, f, g, i), h)
    ]
  ]
]
  where
    up :
        (names : List Text)
        → All IsElement names
        → All IsElement (elim names as (λ _. List Text) [ [] ↦ [] | _ ∷ above ↦ above ])
    up [] h = tt
    up (x ∷ above) h = h.1

resolve-All :
    (names cs : List Text)
    → All (All IsInner) cs
    → All IsElement names
    → All IsElement (resolve names cs)
unfolding resolve
resolve-All names [] i h = All-reverse IsElement names h
resolve-All names (c ∷ cs) i h = resolve-All (enter names c) cs i.1 (enter-All names c i.0 h)

All-IsInner : (xs : List Text) → All IsElement xs → All (All IsInner) xs
All-IsInner [] h = tt
All-IsInner (x ∷ xs) ((_, _, _, i), h) = (i, All-IsInner xs h)

nonempty-elements : (xs : List Text) → All IsElement xs → nonempty xs ≡ xs
nonempty-elements [] h = refl
nonempty-elements ([] ∷ xs) h = absurd (false≢true (sym h.0.0))
nonempty-elements ((c ∷ cs) ∷ xs) h =
    ap (λ (t : List Text). (c ∷ cs) ∷ t) (nonempty-elements xs h.1)

-- The names of a rooted path.
abbrev pub root_names : Text → List Text
root_names root = resolve [] (split root)

root_names-All : (root : Text) → All IsElement (root_names root)
root_names-All root = resolve-All [] (split root) (split-All root) tt

resolve-nonempty :
    (root x : Text) (xs : List Text)
    → All IsElement (x ∷ xs)
    → resolve [] (split (root ++ b'/' ∷ join_names (x ∷ xs))) ≡ root_names root ++ x ∷ xs
resolve-nonempty root x xs h =
    rw (split-append root (join_names (x ∷ xs)), split-join_names x xs (All-IsInner (x ∷ xs) h))
      (resolve-append [] (split root) (x ∷ xs) h)

clean_rooted : (p : Text) → is_abs p ≡ true → clean p ≡ b'/' ∷ join_names (resolve [] (split p))
unfolding clean
clean_rooted p a = rw a refl

join_path-clean :
    (root x : Text) (xs : List Text)
    → is_empty root ≡ false
    → All IsElement (x ∷ xs)
    → join_path (root ∷ x ∷ xs) ≡ clean (root ++ b'/' ∷ join_names (x ∷ xs))
unfolding join_path join_names
join_path-clean [] x xs a h = absurd (false≢true (sym a))
join_path-clean (c ∷ root) x xs a h = rw (nonempty-elements (x ∷ xs) h) refl

is_abs-append : (root s : Text) → is_abs root ≡ true → is_abs (root ++ s) ≡ true
is_abs-append [] s a = absurd (false≢true a)
is_abs-append (c ∷ root) s a = a

filled : (root : Text) → is_abs root ≡ true → is_empty root ≡ false
filled [] a = absurd (false≢true a)
filled (c ∷ root) a = refl

join_path-names :
    (root x : Text) (xs : List Text)
    → is_abs root ≡ true
    → All IsElement (x ∷ xs)
    → join_path (root ∷ x ∷ xs) ≡ b'/' ∷ join_names (root_names root ++ x ∷ xs)
join_path-names root x xs a h =
    join_path-clean root x xs (filled root a) h
    ∙ clean_rooted (root ++ b'/' ∷ join_names (x ∷ xs))
        (is_abs-append root (b'/' ∷ join_names (x ∷ xs)) a)
    ∙ ap (λ (t : List Text). b'/' ∷ join_names t) (resolve-nonempty root x xs h)

abs-slash :
    (cwd : Option Text) (names : List Text)
    → All IsElement names
    → abs cwd (b'/' ∷ join_names names) ≡ some names
unfolding abs split join_names resolve
abs-slash cwd [] h = refl
abs-slash cwd (x ∷ xs) h =
    ap some (rw (split-join_names x xs (All-IsInner (x ∷ xs) h)) (resolve-elements [] (x ∷ xs) h))

abs_rooted :
    (cwd : Option Text) (root : Text) → is_abs root ≡ true → abs cwd root ≡ some (root_names root)
unfolding abs
abs_rooted cwd root a = rw a refl

-- The path of names under a rooted path lies below it.
pub join_path_under :
    (cwd : Option Text) (root x : Text) (xs : List Text)
    → is_abs root ≡ true
    → All IsElement (x ∷ xs)
    → path_is_under_root cwd root (join_path (root ∷ x ∷ xs)) ≡ some true
join_path_under cwd root x xs a h = rw (join_path-names root x xs a h) (
    (path_is_under_root_iff cwd root (b'/' ∷ join_names (root_names root ++ x ∷ xs)) (filled root a)
        refl).1
      (
        root_names root,
        x,
        xs,
        abs_rooted cwd root a,
        abs-slash cwd (root_names root ++ x ∷ xs)
            (All-append IsElement (root_names root) (x ∷ xs) (root_names-All root) h),
      ))
