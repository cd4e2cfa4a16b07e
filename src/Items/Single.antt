-- ===== src/Items/Single.antt =====
-- A lookup of at most one row in what a query lists: filtered, sorted, reversed.
use mathlib.Core.List.{reverse, reverse-cons}
use plex_mirror.Base.{
  ℕ, ◌≡◌, refl, sym, ap, ◌∙◌, inl, inr, Bool, true, false, Option, none, some, List, [], ◌∷◌, ◌++◌,
  keep, Text, Bool-cases, Option-cases, if◌then◌else◌,
}
use plex_mirror.Items.{Row, has_key, find}
use plex_mirror.Items.Lookup.{has_key_lem, find-append_none, find-append_some}
use plex_mirror.Items.Order.{Unique}
use plex_mirror.Items.Sorting.{before, insert_row, sort_rows}

found : {s : Row} → ¬ (some s ≡ none)
found h = cc

module _ (p : Row → Bool) where
  -- At most one row satisfies `p`.
  abbrev pub IsSingle : List Row → Type 0
  IsSingle [] = Unit
  IsSingle (r ∷ rs) = (p r ≡ true → find p rs ≡ none) × IsSingle rs

  find-skip : (r : Row) (rs : List Row) → p r ≡ false → find p (r ∷ rs) ≡ find p rs
  unfolding find
  find-skip r rs e = rw e refl

  find-hit : (r : Row) (rs : List Row) → p r ≡ true → find p (r ∷ rs) ≡ some r
  unfolding find
  find-hit r rs e = rw e refl

  -- What a filter leaves of the row that a lookup finds.
  abbrev pub kept : (Row → Bool) → Option Row → Option Row
  kept q none = none
  kept q (some r) = if q r then some r else none

  find-keep :
      (q : Row → Bool) (rs : List Row) → IsSingle rs → find p (keep q rs) ≡ kept q (find p rs)
  unfolding find keep
  find-keep q [] h = refl
  find-keep q (r ∷ rs) h = elim (Bool-cases (p r)) [
    | inl e ↦ elim (Bool-cases (q r)) [
      | inl f ↦ rw (e, f, e) refl
      | inr f ↦ rw (e, f) (find-keep q rs h.1 ∙ ap (kept q) (h.0 e))
    ]
    | inr e ↦ elim (Bool-cases (q r)) [
      | inl f ↦ rw (e, f, e) (find-keep q rs h.1)
      | inr f ↦ rw (e, f) (find-keep q rs h.1)
    ]
  ]

  keep-IsSingle : (q : Row → Bool) (rs : List Row) → IsSingle rs → IsSingle (keep q rs)
  unfolding keep
  keep-IsSingle q [] h = tt
  keep-IsSingle q (r ∷ rs) h = elim (Bool-cases (q r)) [
    | inl f ↦ rw f ((λ e. find-keep q rs h.1 ∙ ap (kept q) (h.0 e)), keep-IsSingle q rs h.1)
    | inr f ↦ rw f (keep-IsSingle q rs h.1)
  ]

  find-insert_other :
      (key : Row → ℕ) (r : Row) (rs : List Row)
      → p r ≡ false
      → find p (insert_row key r rs) ≡ find p rs
  unfolding insert_row find
  find-insert_other key r [] e = rw e refl
  find-insert_other key r (s ∷ rs) e = elim (Bool-cases (before key s r)) [
    | inl b ↦ rw (b, find-insert_other key r rs e) refl
    | inr b ↦ rw (b, e) refl
  ]

  find-insert_own :
      (key : Row → ℕ) (r : Row) (rs : List Row)
      → p r ≡ true
      → find p rs ≡ none
      → find p (insert_row key r rs) ≡ some r
  unfolding insert_row find
  find-insert_own key r [] e h = rw e refl
  find-insert_own key r (s ∷ rs) e h = elim (Bool-cases (before key s r)) [
    | inr b ↦ rw (b, e) refl
    | inl b ↦ elim (Bool-cases (p s)) [
      | inl k ↦ absurd (found (rw k at h))
      | inr k ↦ rw (b, k) (find-insert_own key r rs e (rw k at h))
    ]
  ]

  find-sort_rows :
      (key : Row → ℕ) (rs : List Row) → IsSingle rs → find p (sort_rows key rs) ≡ find p rs
  unfolding sort_rows
  find-sort_rows key [] h = refl
  find-sort_rows key (r ∷ rs) h = elim (Bool-cases (p r)) [
    | inl e ↦
        find-insert_own key r (sort_rows key rs) e (find-sort_rows key rs h.1 ∙ h.0 e)
        ∙ sym (find-hit r rs e)
    | inr e ↦
        find-insert_other key r (sort_rows key rs) e
        ∙ find-sort_rows key rs h.1
        ∙ sym (find-skip r rs e)
  ]

  insert-IsSingle :
      (key : Row → ℕ) (r : Row) (rs : List Row)
      → (p r ≡ true → find p rs ≡ none)
      → IsSingle rs
      → IsSingle (insert_row key r rs)
  unfolding insert_row find
  insert-IsSingle key r [] n h = (λ e. refl, tt)
  insert-IsSingle key r (s ∷ rs) n h = elim (Bool-cases (before key s r)) [
    | inr b ↦ rw b (n, h)
    | inl b ↦ rw b (hidden, insert-IsSingle key r rs later h.1)
  ]
    where
      later : p r ≡ true → find p rs ≡ none
      later e = elim (Bool-cases (p s)) [ inl k ↦ h.0 k | inr k ↦ sym (find-skip s rs k) ∙ n e ]

      hidden : p s ≡ true → find p (insert_row key r rs) ≡ none
      hidden k = elim (Bool-cases (p r)) [
        | inl e ↦ absurd (found (sym (find-hit s rs k) ∙ n e))
        | inr e ↦ find-insert_other key r rs e ∙ h.0 k
      ]

  sort_rows-IsSingle : (key : Row → ℕ) (rs : List Row) → IsSingle rs → IsSingle (sort_rows key rs)
  unfolding sort_rows
  sort_rows-IsSingle key [] h = tt
  sort_rows-IsSingle key (r ∷ rs) h =
      insert-IsSingle key r (sort_rows key rs) (λ e. find-sort_rows key rs h.1 ∙ h.0 e)
        (sort_rows-IsSingle key rs h.1)

  find-reverse : (rs : List Row) → IsSingle rs → find p (reverse rs) ≡ find p rs
  find-reverse [] h = refl
  find-reverse (r ∷ rs) h = ap (find p) (reverse-cons r rs) ∙ elim (Bool-cases (p r)) [
    | inl e ↦
        find-append_none p (reverse rs) r (find-reverse rs h.1 ∙ h.0 e)
        ∙ ap (λ (b : Bool). if b then some r else none) e
        ∙ sym (find-hit r rs e)
    | inr e ↦ elim (Option-cases (find p rs)) [
      | inl n ↦
          find-append_none p (reverse rs) r (find-reverse rs h.1 ∙ n)
          ∙ ap (λ (b : Bool). if b then some r else none) e
          ∙ sym (find-skip r rs e ∙ n)
      | inr (x, m) ↦
          find-append_some p (reverse rs) (r ∷ []) {x = x} (find-reverse rs h.1 ∙ m)
          ∙ sym (find-skip r rs e ∙ m)
    ]
  ]

  append-IsSingle :
      (rs : List Row) (r : Row)
      → IsSingle rs
      → (p r ≡ true → find p rs ≡ none)
      → IsSingle (rs ++ r ∷ [])
  unfolding find
  append-IsSingle [] r h n = (λ e. refl, tt)
  append-IsSingle (s ∷ rs) r h n = (hidden, append-IsSingle rs r h.1 later)
    where
      later : p r ≡ true → find p rs ≡ none
      later e = elim (Bool-cases (p s)) [ inl k ↦ h.0 k | inr k ↦ sym (find-skip s rs k) ∙ n e ]

      hidden : p s ≡ true → find p (rs ++ r ∷ []) ≡ none
      hidden k = elim (Bool-cases (p r)) [
        | inl e ↦ absurd (found (sym (find-hit s rs k) ∙ n e))
        | inr e ↦ find-append_none p rs r (h.0 k) ∙ ap (λ (b : Bool). if b then some r else none) e
      ]

  reverse-IsSingle : (rs : List Row) → IsSingle rs → IsSingle (reverse rs)
  reverse-IsSingle [] h = tt
  reverse-IsSingle (r ∷ rs) h =
      rw (reverse-cons r rs) (
        append-IsSingle (reverse rs) r (reverse-IsSingle rs h.1) (λ e. find-reverse rs h.1 ∙ h.0 e))

  pub listed-IsSingle :
      (key : Row → ℕ) (q : Row → Bool) (rs : List Row)
      → IsSingle rs
      → IsSingle (sort_rows key (keep q rs))
  listed-IsSingle key q rs h = sort_rows-IsSingle key (keep q rs) (keep-IsSingle q rs h)

  pub listed_back-IsSingle :
      (key : Row → ℕ) (q : Row → Bool) (rs : List Row)
      → IsSingle rs
      → IsSingle (reverse (sort_rows key (keep q rs)))
  listed_back-IsSingle key q rs h =
      reverse-IsSingle (sort_rows key (keep q rs)) (listed-IsSingle key q rs h)

  -- A lookup in a filtered and sorted list, in either order.
  pub find-listed :
      (key : Row → ℕ) (q : Row → Bool) (rs : List Row)
      → IsSingle rs
      → find p (sort_rows key (keep q rs)) ≡ kept q (find p rs)
  find-listed key q rs h = find-sort_rows key (keep q rs) (keep-IsSingle q rs h) ∙ find-keep q rs h

  pub find-listed_back :
      (key : Row → ℕ) (q : Row → Bool) (rs : List Row)
      → IsSingle rs
      → find p (reverse (sort_rows key (keep q rs))) ≡ kept q (find p rs)
  find-listed_back key q rs h =
      find-reverse (sort_rows key (keep q rs)) (listed-IsSingle key q rs h) ∙ find-listed key q rs h

pub Unique-IsSingle : (s k : Text) (rs : List Row) → Unique rs → IsSingle (has_key s k) rs
Unique-IsSingle s k [] u = tt
Unique-IsSingle s k (r ∷ rs) u = (
  λ e.
      let (p, q) = has_key_lem s k r e in
      sym (ap (λ (t : Text). find (has_key t k) rs) p)
      ∙ sym (ap (λ (t : Text). find (has_key r.source t) rs) q)
      ∙ u.0,
  Unique-IsSingle s k rs u.1,
)
