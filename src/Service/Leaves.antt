-- ===== src/Service/Leaves.antt =====
-- Walking a container in internal/service/bulk.go: pages, children and downloadable leaves.
pub mod Walk
pub mod Gathered
use plex_mirror.Base.{
  ℕ, zero, suc, ◌+◌, ◌*◌, Bool, true, false, not, ◌||◌, List, [], ◌∷◌, ◌++◌, if◌then◌else◌, ltb,
  Text, is_empty, length,
}
use plex_mirror.Source.{Item, ItemKind, show, season, Fetched, got, fault}

abbrev pub max_child_depth : ℕ
max_child_depth = 3

abbrev pub child_page_size : ℕ
child_page_size = 200

infixl 5 ◌>>=◌
abbrev pub ◌>>=◌ {ℓ κ} : {A : Type ℓ} {B : Type κ} → Fetched A → (A → Fetched B) → Fetched B
got a >>= f = f a
fault e >>= f = fault e

-- `children id offset` is one page of ListChildren.
module _ (children : Text → ℕ → Fetched (List Item)) where
  -- The loop of listAllChildren, with `pages` pages left of its bound.
  unfoldable pub list_pages : ℕ → Text → ℕ → Fetched (List Item)
  list_pages zero id offset = got []
  list_pages (suc pages) id offset = children id offset >>= λ batch.
      let rest = list_pages pages id (offset + child_page_size) in
      if ltb (length batch) child_page_size then got batch else rest >>= λ more. got (batch ++ more)

  unfoldable pub list_all_children : Text → Fetched (List Item)
  unfolding list_pages
  list_all_children id = list_pages 1000 id 0

abbrev pub has_file : Item → Bool
has_file item = not (is_empty item.container)

abbrev pub is_container : ItemKind → Bool
is_container show = true
is_container season = true
is_container _ = false

-- The loop of collectLeaves over the children; `descend` is the call one level down.
unfoldable pub walk : (Text → Fetched (List Item)) → List Item → Fetched (List Item)
walk descend [] = got []
walk descend (c ∷ cs) =
    let rest = walk descend cs in
    if has_file c
    then (rest >>= λ leaves. got (c ∷ leaves))
    else if is_container c.kind
    then (descend c.id >>= λ sub. rest >>= λ leaves. got (sub ++ leaves))
    else rest

-- collectLeaves, with `levels` levels left of max_child_depth.
unfoldable pub collect_leaves : (Text → ℕ → Fetched (List Item)) → ℕ → Text → Fetched (List Item)
unfolding walk list_all_children
collect_leaves children zero id = got []
collect_leaves children (suc levels) id =
    list_all_children children id >>= walk (collect_leaves children levels)
