-- ===== src/Items/Ordering.antt =====
-- Sorted rows: their order, and that they are the same rows.
use mathlib.Core.List.{Perm}
use mathlib.Core.List.Perm
use plex_mirror.Base.{
  ℕ, ◌≡◌, sym, ◌≢◌, inl, inr, true, false, List, [], ◌∷◌, arith, Bool-cases, All, All-map,
}
use plex_mirror.Items.{Row}
use plex_mirror.Items.Sorting.{before, insert_row, sort_rows}

abbrev pub DistinctIds : List Row → Type 0
DistinctIds [] = Unit {0}
DistinctIds (r ∷ rs) = All (λ s. s.id ≢ r.id) rs × DistinctIds rs

module _ (key : Row → ℕ) where
  -- Not after: a smaller key, or the same one and no greater id.
  infix 40 ◌≼◌
  abbrev pub ◌≼◌ : Row → Row → Type 0
  r ≼ s = before key s r ≡ false

  -- Each row stands before all that follow it.
  abbrev pub IsSorted : List Row → Type 0
  IsSorted [] = Unit {0}
  IsSorted (r ∷ rs) = All (λ s. r ≼ s) rs × IsSorted rs

  ≼-trans : (r s t : Row) → r ≼ s → s ≼ t → r ≼ t
  ≼-trans r s t h k = ground arith

  before-≼ : (r s : Row) → before key s r ≡ true → s ≼ r
  before-≼ r s h = ground arith

  module _ {κ} (P : Row → Type κ) where
    All-insert : (r : Row) (rs : List Row) → P r → All P rs → All P (insert_row key r rs)
    unfolding insert_row
    All-insert r [] p h = (p, tt)
    All-insert r (s ∷ rs) p h = elim (Bool-cases (before key s r)) [
      | inl e ↦ rw e (h.0, All-insert r rs p h.1)
      | inr e ↦ rw e (p, h)
    ]

    pub All-sort : (rs : List Row) → All P rs → All P (sort_rows key rs)
    unfolding sort_rows
    All-sort [] h = tt
    All-sort (r ∷ rs) h = All-insert r (sort_rows key rs) h.0 (All-sort rs h.1)

  insert-IsSorted : (r : Row) (rs : List Row) → IsSorted rs → IsSorted (insert_row key r rs)
  unfolding insert_row
  insert-IsSorted r [] h = (tt, tt)
  insert-IsSorted r (s ∷ rs) h = elim (Bool-cases (before key s r)) [
    | inl e ↦ rw e (All-insert (λ x. s ≼ x) r rs (before-≼ r s e) h.0, insert-IsSorted r rs h.1)
    | inr e ↦ rw e ((e, All-map (λ x. s ≼ x) (λ x. r ≼ x) (λ x. ≼-trans r s x e) rs h.0), h)
  ]

  pub sort-IsSorted : (rs : List Row) → IsSorted (sort_rows key rs)
  unfolding sort_rows
  sort-IsSorted [] = tt
  sort-IsSorted (r ∷ rs) = insert-IsSorted r (sort_rows key rs) (sort-IsSorted rs)

  insert-perm : (r : Row) (rs : List Row) → Perm (insert_row key r rs) (r ∷ rs)
  unfolding insert_row
  insert-perm r [] = Perm.refl (r ∷ [])
  insert-perm r (s ∷ rs) = elim (Bool-cases (before key s r)) [
    | inl e ↦ rw e (Perm.trans (Perm.cons s (insert-perm r rs)) (Perm.swap r s rs))
    | inr e ↦ rw e (Perm.refl (r ∷ s ∷ rs))
  ]

  pub sort-perm : (rs : List Row) → Perm (sort_rows key rs) rs
  unfolding sort_rows
  sort-perm [] = Perm.refl []
  sort-perm (r ∷ rs) = Perm.trans (insert-perm r (sort_rows key rs)) (Perm.cons r (sort-perm rs))

  insert-DistinctIds :
      (r : Row) (rs : List Row)
      → All (λ s. s.id ≢ r.id) rs
      → DistinctIds rs
      → DistinctIds (insert_row key r rs)
  unfolding insert_row
  insert-DistinctIds r [] n h = (tt, tt)
  insert-DistinctIds r (s ∷ rs) n h = elim (Bool-cases (before key s r)) [
    | inl e ↦
        rw e (
          All-insert (λ x. x.id ≢ s.id) r rs (λ q. n.0 (sym q)) h.0,
          insert-DistinctIds r rs n.1 h.1,
        )
    | inr e ↦ rw e (n, h)
  ]

  pub sort-DistinctIds : (rs : List Row) → DistinctIds rs → DistinctIds (sort_rows key rs)
  unfolding sort_rows
  sort-DistinctIds [] h = tt
  sort-DistinctIds (r ∷ rs) h =
      insert-DistinctIds r (sort_rows key rs) (All-sort (λ s. s.id ≢ r.id) rs h.0)
        (sort-DistinctIds rs h.1)
