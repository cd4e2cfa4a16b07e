-- ===== src/Service/Leaves/Gathered.antt =====
-- collectLeaves of internal/service/bulk.go over a library: which files it returns.
use plex_mirror.Base.{
  ℕ, zero, suc, ◌*◌, ◌<◌, ◌≡◌, refl, true, false, List, [], ◌∷◌, ◌++◌, Text, length,
}
use plex_mirror.Source.{Item, Fetched, got}
use plex_mirror.Service.Leaves.{has_file, is_container, walk, collect_leaves, child_page_size}
use plex_mirror.Service.Leaves.Walk.{Pages, list_all_children_complete}

-- What a source holds: files, containers of more, and items that are neither.
mutual
  pub data Tree : Type 0 where
    file : Item → Tree
    folder : Item → Forest → Tree
    other : Item → Tree

  pub data Forest : Type 0 where
    nil : Forest
    cons : Tree → Forest → Forest

abbrev pub root : Tree → Item
root (file item) = item
root (folder item ts) = item
root (other item) = item

abbrev pub roots : Forest → List Item
roots nil = []
roots (cons t ts) = root t ∷ roots ts

-- The files of a library in order, those below more than `levels` nested containers left out.
unfoldable mutual
  pub files_of : ℕ → Tree → List Item
  files_of levels (file item) = item ∷ []
  files_of levels (other item) = []
  files_of zero (folder item ts) = []
  files_of (suc levels) (folder item ts) = files levels ts

  pub files : ℕ → Forest → List Item
  files levels nil = []
  files levels (cons t ts) = files_of levels t ++ files levels ts

module _ (children : Text → ℕ → Fetched (List Item)) where
  -- The source lists the container `id` page by page, and the list fits the bound of the pages.
  abbrev pub Lists : Text → List Item → Type 0
  Lists id items = Pages children id items × (length items < 1000 * child_page_size)

  -- The source shows the library down to `levels` nested containers.
  unfoldable mutual
    pub ShowsTree : ℕ → Tree → Type 0
    ShowsTree levels (file item) = has_file item ≡ true
    ShowsTree levels (other item) = (has_file item ≡ false) × (is_container item.kind ≡ false)
    ShowsTree zero (folder item ts) = (has_file item ≡ false) × (is_container item.kind ≡ true)
    ShowsTree (suc levels) (folder item ts) =
        (has_file item ≡ false)
        × (is_container item.kind ≡ true)
        × Lists item.id (roots ts)
        × Shows levels ts

    pub Shows : ℕ → Forest → Type 0
    Shows levels nil = Unit
    Shows levels (cons t ts) = ShowsTree levels t × Shows levels ts

  -- The calls one level down gather what the containers there hold.
  abbrev Gathers : ℕ → (Text → Fetched (List Item)) → Type 0
  Gathers zero descend = (id : Text) → descend id ≡ got []
  Gathers (suc levels) descend =
      (id : Text) (ts : Forest)
      → Lists id (roots ts)
      → Shows levels ts
      → descend id ≡ got (files levels ts)

  walk-files :
      (levels : ℕ) (descend : Text → Fetched (List Item))
      → Gathers levels descend
      → (ts : Forest) → Shows levels ts
      → walk descend (roots ts) ≡ got (files levels ts)
  unfolding walk files files_of Shows ShowsTree
  walk-files levels descend g nil h = refl
  walk-files levels descend g (cons (file item) ts) (p, h) =
      rw p (rw (walk-files levels descend g ts h) refl)
  walk-files levels descend g (cons (other item) ts) ((p, q), h) =
      rw (p, q) (walk-files levels descend g ts h)
  walk-files zero descend g (cons (folder item us) ts) ((p, q), h) =
      rw (p, q) (rw (g item.id, walk-files zero descend g ts h) refl)
  walk-files (suc levels) descend g (cons (folder item us) ts) ((p, q, lists, shows), h) =
      rw (p, q) (rw (g item.id us lists shows, walk-files (suc levels) descend g ts h) refl)

  -- Where the source pages a library, collectLeaves returns its files, all of them, in order and
  -- each as often as it is there, down to the nested containers that its depth leaves it, and none
  -- from further down. So it returns also where containers contain each other: such a source shows
  -- the library that repeats them.
  pub collect_leaves_complete :
      (levels : ℕ) (id : Text) (ts : Forest)
      → Lists id (roots ts)
      → Shows levels ts
      → collect_leaves children (suc levels) id ≡ got (files levels ts)
  unfolding collect_leaves
  collect_leaves_complete zero id ts (pages, small) h =
      rw (list_all_children_complete children id (roots ts) pages small)
        (walk-files zero (collect_leaves children zero) (λ x. refl) ts h)
  collect_leaves_complete (suc levels) id ts (pages, small) h =
      rw (list_all_children_complete children id (roots ts) pages small) (
        walk-files (suc levels) (collect_leaves children (suc levels))
          (λ x us lists shows. collect_leaves_complete levels x us lists shows) ts h)
