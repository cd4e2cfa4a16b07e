-- ===== src/Storage/Paths/Containment.antt =====
-- What the guard of internal/storage/manager.go lets through.
use mathlib.Core.List.{reverse, reverse-cons}
use mathlib.Core.Path.{subst}
use mathlib.Core.Option.{none-ne-some}
use mathlib.Core.Bool.{false≢true}
use plex_mirror.Base.{
  ◌≡◌, refl, ap, ◌↔◌, ◌⊎◌, inl, inr, true, false, Option, none, some, List, [], ◌∷◌, ◌++◌, map,
  arith, Text, text_eq, text_eq_iff, text_eq_refl, is_empty, All, All-append, of_some, Bool-cases,
  Option-cases,
}
use plex_mirror.Storage.Paths.{
  dotdot, enter, resolve, split, abs, is_abs, rel, inside, ◌>>=◌, path_is_under_root,
}

-- A name: an element that does not climb.
abbrev pub IsName : Text → Type 0
IsName x = text_eq x dotdot ≡ false

enter-names : (names : List Text) (c : Text) → All IsName names → All IsName (enter names c)
unfolding enter
enter-names [] c h = ground arith
enter-names (x ∷ names) c h = ground arith

All-reverse : (xs : List Text) → All IsName xs → All IsName (reverse xs)
All-reverse [] h = tt
All-reverse (x ∷ xs) h =
    rw (reverse-cons x xs) (All-append IsName (reverse xs) (x ∷ []) (All-reverse xs h.1) (h.0, tt))

resolve-names : (names cs : List Text) → All IsName names → All IsName (resolve names cs)
unfolding resolve
resolve-names names [] h = All-reverse names h
resolve-names names (c ∷ cs) h = resolve-names (enter names c) cs (enter-names names c h)

-- A cleaned absolute path has no "..".
pub abs-names :
    (cwd : Option Text) (path : Text) {xs : List Text} → abs cwd path ≡ some xs → All IsName xs
unfolding abs
abs-names cwd path {xs} e = elim (Bool-cases (is_abs path)) [
  | inl h ↦ named (split path) (rw h at e)
  | inr h ↦ relative (Option-cases cwd) (rw h at e)
]
  where
    named : (cs : List Text) → some (resolve [] cs) ≡ some xs → All IsName xs
    named cs p = subst (All IsName) (of_some p) (resolve-names [] cs tt)

    relative :
        (cwd ≡ none) ⊎ ((wd : Text) × (cwd ≡ some wd))
        → (elim cwd as (λ _. Option (List Text)) [
          | none ↦ none
          | some wd ↦ some (resolve [] (split wd ++ split path))
        ])
          ≡ some xs
        → All IsName xs
    relative (inl q) p = absurd (none-ne-some _ (rw q at p))
    relative (inr (wd, q)) p = named (split wd ++ split path) (rw q at p)

climbs : (xs : List Text) → ¬ (inside (dotdot ∷ xs) ≡ true)
unfolding inside
climbs xs h = ground (arith, text_eq_refl dotdot)

rel-inside :
    (base target : List Text)
    → inside (rel base target) ≡ true
    → (x : Text) × (xs : List Text) × (target ≡ base ++ x ∷ xs)
unfolding rel inside
rel-inside [] [] h = absurd (false≢true h)
rel-inside [] (x ∷ xs) h = (x, xs, refl)
rel-inside (b ∷ base) [] h = absurd (climbs (map (λ _. dotdot) base) h)
rel-inside (b ∷ base) (t ∷ target) h = elim (Bool-cases (text_eq t b)) [
  | inl e ↦
      let (x, xs, p) = rel-inside base target (rw e at h) in
      (x, xs, ground (arith, p, text_eq_iff t b))
  | inr e ↦ absurd (climbs (map (λ _. dotdot) base ++ t ∷ target) (rw e at h))
]

rel-append : (base xs : List Text) → rel base (base ++ xs) ≡ xs
unfolding rel
rel-append [] xs = refl
rel-append (b ∷ base) xs = rw ((text_eq_iff b b).1 refl) (rel-append base xs)

-- The candidate lies strictly below the root, both resolved against the working directory.
abbrev pub IsBelow : Option Text → Text → Text → Type 0
IsBelow cwd root candidate =
    (r : List Text) × (x : Text) × (xs : List Text) × (abs cwd root ≡ some r)
    × (abs cwd candidate ≡ some (r ++ x ∷ xs))

abbrev Splits : Option (List Text) → Option (List Text) → Type 0
Splits a b =
    (r : List Text) × (x : Text) × (xs : List Text) × (a ≡ some r) × (b ≡ some (r ++ x ∷ xs))

compare-Splits :
    (a b : Option (List Text))
    → (a >>= λ r. b >>= λ c. some (inside (rel r c))) ≡ some true
    → Splits a b
compare-Splits none b h = absurd (none-ne-some _ h)
compare-Splits (some r) none h = absurd (none-ne-some _ h)
compare-Splits (some r) (some c) h =
    let (x, xs, e) = rel-inside r c (of_some h) in (r, x, xs, refl, ap some e)

splits_compare :
    (r : List Text) (x : Text) (xs : List Text)
    → IsName x
    → some (inside (rel r (r ++ x ∷ xs))) ≡ some true
unfolding inside
splits_compare r x xs n = rw (rel-append r (x ∷ xs)) (rw n)

All-append_right : (xs ys : List Text) → All IsName (xs ++ ys) → All IsName ys
All-append_right [] ys h = h
All-append_right (x ∷ xs) ys h = All-append_right xs ys h.1

-- The guard passes exactly the paths strictly below the media root, "..", "." and doubled
-- separators resolved, where neither path is empty.
pub path_is_under_root_iff :
    (cwd : Option Text) (root candidate : Text)
    → is_empty root ≡ false
    → is_empty candidate ≡ false
    → (path_is_under_root cwd root candidate ≡ some true) ↔ IsBelow cwd root candidate
unfolding path_is_under_root
path_is_under_root_iff cwd root candidate p q = (
  (λ h. compare-Splits (abs cwd root) (abs cwd candidate) (rw (p, q) at h)),
  (λ b.
      let (r, x, xs, e, f) = b in
      let named = All-append_right r (x ∷ xs) (abs-names cwd candidate f) in
      rw (p, q) (rw (e, f) (splits_compare r x xs named.0))),
)

-- Nothing passes it with an empty root or candidate.
pub path_is_under_root_nonempty :
    (cwd : Option Text) (root candidate : Text)
    → path_is_under_root cwd root candidate ≡ some true
    → (is_empty root ≡ false) × (is_empty candidate ≡ false)
unfolding path_is_under_root
path_is_under_root_nonempty cwd root candidate h = ground arith
