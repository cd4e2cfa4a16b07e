-- ===== src/Tests/Serving.antt =====
-- Runs of internal/service/bulk.go and internal/service/cancel.go.
use plex_mirror.Base.{
  ℕ, ◌≡◌, refl, true, some, List, [], ◌∷◌, Text, codes, arith, take, drop, text_eq,
}
use plex_mirror.Items.{Table, find, update_where}
use plex_mirror.Download.Queueing.{queue}
use plex_mirror.Layout.{final}
use plex_mirror.Source.{Item, show, Fetched, got}
use plex_mirror.Service.{Backend, Runtime, ok, cancel, downloadable_source, ◌>>=◌}
use plex_mirror.Service.Canceling.{IsCancelled, cancel_effect}
use plex_mirror.Service.Leaves.{collect_leaves, list_all_children, child_page_size}
use plex_mirror.Service.Leaves.Walk.{Pages, list_all_children_complete}
use plex_mirror.Service.Bulk.{
  BulkQueueResult, ContainerPreview, gather_leaves, status_at, queue_container, preview_container,
}
use plex_mirror.Service.BulkEvict.{evict_container}
use plex_mirror.Service.BulkEvict.Freed.{IsDistinct, IsFreed, evict_container-IsFreed}
use plex_mirror.Service.{source_of}
use plex_mirror.Service.Leaves.Gathered.{
  Forest, nil, cons, file, folder, files, Lists, Shows, ShowsTree, collect_leaves_complete,
}
use plex_mirror.Tests.Fixtures.{policy}
use plex_mirror.Service.Bulk.Counts.{IsPreviewed, queue_container-preview}
use plex_mirror.Tests.Fixtures.{disk, table, table-IsWellFormed, env, layout, movie_item}

-- The failed row is cancelled.
cancel_effect_example :
    IsCancelled
      (λ text. codes "d1")
      (codes "/media")
      3
      disk
      (cancel env (λ text. codes "d1") (codes "/media") 3 disk)
cancel_effect_example =
    cancel_effect env (λ text. codes "d1") (codes "/media") 3 disk table-IsWellFormed

abbrev leaves : List Item
leaves =
    movie_item (codes "a")
    ∷ movie_item (codes "c")
    ∷ movie_item (codes "d")
    ∷ movie_item (codes "n")
    ∷ []

abbrev children : Text → ℕ → Fetched (List Item)
children id offset = got (take child_page_size (drop offset leaves))

abbrev a_show : Item
a_show = record (movie_item (codes "s")) { kind = show; container = [] }

abbrev backend : Backend
backend = record {
  downloadable = true;
  lists_children = true;
  metadata = λ id. got a_show;
  children = children;
}

abbrev pub runtime : Runtime
runtime = record {
  sources = (codes "plex", backend) ∷ [];
  engine = some layout;
  engine_source = codes "plex";
}

children-Pages : Pages children (codes "s") leaves
children-Pages offset = refl

list_all_children_complete_example : list_all_children children (codes "s") ≡ got leaves
list_all_children_complete_example =
    list_all_children_complete children (codes "s") leaves children-Pages (omega arith)

-- A show that contains itself.
abbrev loop : Text → ℕ → Fetched (List Item)
loop id offset = got (take child_page_size (drop offset (a_show ∷ movie_item (codes "a") ∷ [])))

-- What it shows: three levels of itself, each with a file.
abbrev endless : Forest
endless =
    let file_a = cons (file (movie_item (codes "a"))) nil in
    cons (folder a_show (cons (folder a_show (cons (folder a_show nil) file_a)) file_a)) file_a

loop-Lists : (id : Text) → Lists loop id (a_show ∷ movie_item (codes "a") ∷ [])
loop-Lists id = ((λ offset. refl), omega arith)

endless-Shows : Shows loop 2 endless
unfolding Shows ShowsTree
endless-Shows =
    let lists = loop-Lists (codes "s") in
    ((refl, refl, lists, ((refl, refl, lists, ((refl, refl), (refl, tt))), (refl, tt))), (refl, tt))

collect_leaves_complete_example : collect_leaves loop 3 (codes "s") ≡ got (files 2 endless)
collect_leaves_complete_example =
    collect_leaves_complete loop 2 (codes "s") endless (loop-Lists (codes "s")) endless-Shows

abbrev queued_result : BulkQueueResult
queued_result = record { queued = 2; skipped = 2; failed = 0; total_bytes = 6; errors = [] }

abbrev preview : ContainerPreview
preview = record { to_queue = 3; already_have = 1; seasons = []; total_bytes = 9 }

queued_run :
    (t : Table) × (queue_container runtime (codes "plex") (codes "s") 60 table
      ≡ (t, ok queued_result))
unfolding queue_container find text_eq queue final update_where
queued_run = (_, refl)

preview_run : preview_container runtime (codes "plex") (codes "s") table ≡ ok preview
unfolding preview_container find text_eq
preview_run = refl

queue_container-preview_example :
    (xs : List Item) × (root : Item) × ((downloadable_source runtime (codes "plex") >>= λ b.
    gather_leaves b (codes "s"))
      ≡ ok (xs, root))
    × IsPreviewed (λ key. status_at (codes "plex") key table) xs queued_result preview
queue_container-preview_example =
    queue_container-preview runtime (codes "plex") (codes "s") 60 table queued_run.0 queued_result
      preview queued_run.1 preview_run

leaves_gathered :
    (source_of runtime (codes "plex") >>= λ b. gather_leaves b (codes "s")) ≡ ok (leaves, a_show)
unfolding source_of gather_leaves text_eq
leaves_gathered = refl

leaves-IsDistinct : IsDistinct leaves
unfolding text_eq
leaves-IsDistinct = ((refl, (refl, (refl, tt))), ((refl, (refl, tt)), ((refl, tt), (tt, tt))))

evict_container-IsFreed_example :
    IsFreed disk (evict_container env policy runtime (codes "plex") (codes "s") disk)
evict_container-IsFreed_example =
    evict_container-IsFreed env policy runtime (codes "plex") (codes "s") disk leaves a_show
      table-IsWellFormed leaves-IsDistinct leaves_gathered
