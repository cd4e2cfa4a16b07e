-- ===== src/Service/Leaves/Walk.antt =====
-- What listAllChildren of internal/service/bulk.go returns.
use native.Mathlib.Nat.{zero-add, suc-add}
use plex_mirror.Base.{
  ℕ, zero, suc, ◌+◌, ◌*◌, ◌≤◌, ◌<◌, ◌≡◌, refl, sym, ap, ◌∙◌, inl, inr, false, List, [], ◌∷◌, ◌++◌,
  ltb, Text, length, take, drop, arith, Bool-cases, take-drop, ltb→lt,
}
use plex_mirror.Source.{Item, Fetched, got}
use plex_mirror.Service.Leaves.{list_pages, list_all_children, child_page_size}

module _ {ℓ} {A : Type ℓ} where
  take_short : (n : ℕ) (xs : List A) → length (take n xs) < n → take n xs ≡ xs
  take_short zero xs h = absurd (omega arith)
  take_short (suc n) [] h = refl
  take_short (suc n) (x ∷ xs) h = ap (◌∷◌ x) (take_short n xs (omega arith))

  take_full : (n : ℕ) (xs : List A) → n ≤ length (take n xs) → n ≤ length xs
  take_full zero xs h = omega arith
  take_full (suc n) [] h = absurd (omega arith)
  take_full (suc n) (x ∷ xs) h = omega (arith, take_full n xs (omega arith))

  drop_none : (n : ℕ) → drop {A = A} n [] ≡ []
  drop_none zero = refl
  drop_none (suc n) = refl

  drop-drop : (m n : ℕ) (xs : List A) → drop (m + n) xs ≡ drop n (drop m xs)
  drop-drop zero n xs = rw zero-add
  drop-drop (suc m) n [] = rw suc-add (sym (drop_none n))
  drop-drop (suc m) n (x ∷ xs) = rw suc-add (drop-drop m n xs)

  length-drop_add : (n : ℕ) (xs : List A) → n ≤ length xs → length (drop n xs) + n ≡ length xs
  length-drop_add zero xs h = omega arith
  length-drop_add (suc n) [] h = absurd (omega arith)
  length-drop_add (suc n) (x ∷ xs) h = omega (arith, length-drop_add n xs (omega arith))

-- The source pages its children: each page holds what follows the offset, up to the page size.
abbrev pub Pages : (Text → ℕ → Fetched (List Item)) → Text → List Item → Type 0
Pages children id xs =
    (offset : ℕ) → children id offset ≡ got (take child_page_size (drop offset xs))

not_ltb→le : (a b : ℕ) → ltb a b ≡ false → b ≤ a
not_ltb→le a b h = ground arith

list_pages_complete :
    (children : Text → ℕ → Fetched (List Item)) (id : Text) (xs : List Item)
    → Pages children id xs
    → (pages offset : ℕ) → length (drop offset xs) < pages * child_page_size
    → list_pages children pages id offset ≡ got (drop offset xs)
unfolding list_pages
list_pages_complete children id xs h zero offset small = absurd (omega arith)
list_pages_complete children id xs h (suc pages) offset small =
    let rest : List Item = drop offset xs in
    let page : List Item = take child_page_size rest in
    elim (Bool-cases (ltb (length page) child_page_size)) [
      | inl p ↦
          rw (h offset, p)
            (ap got (take_short child_page_size rest (ltb→lt (length page) child_page_size p)))
      | inr p ↦
          let full : child_page_size ≤ length rest =
            take_full child_page_size rest (not_ltb→le (length page) child_page_size p) in
          let size = length-drop_add child_page_size rest full in
          let next = drop-drop offset child_page_size xs in
          let left : length (drop (offset + child_page_size) xs) < pages * child_page_size =
            rw next (omega arith) in
          rw
            (
              h offset,
              p,
              list_pages_complete children id xs h pages (offset + child_page_size) left,
            )
            (ap got (ap (page ++◌) next ∙ take-drop child_page_size rest))
    ]

-- Where the source pages a container's children as listAllChildren expects, and they are fewer than
-- the 1000 pages of its bound hold, it returns all of them in order and without repetition.
pub list_all_children_complete :
    (children : Text → ℕ → Fetched (List Item)) (id : Text) (xs : List Item)
    → Pages children id xs
    → length xs < 1000 * child_page_size
    → list_all_children children id ≡ got xs
unfolding list_all_children
list_all_children_complete children id xs h small =
    list_pages_complete children id xs h 1000 0 small
