-- ===== src/Service/Bulk/Counts.antt =====
-- The counts that QueueContainer and PreviewContainer of internal/service/bulk.go report.
use plex_mirror.Base.{
  ℕ, suc, ◌+◌, ◌≡◌, refl, ap, inl, inr, Option-cases, Bool, true, false, Option, some, List, [],
  ◌∷◌, ◌++◌, arith, if◌then◌else◌, Bool-cases, Text, length, length-append,
}
use plex_mirror.Items.{Table, Status, queued}
use plex_mirror.Source.{Item}
use plex_mirror.Layout.{Layout}
use plex_mirror.Download.Queueing.{queue}
use plex_mirror.Download.Queueing
use plex_mirror.Service.{Failure, Runtime, Result, ok, err, downloadable_source, ◌>>=◌}
use plex_mirror.Service.Bulk.{
  BulkQueueResult, ContainerPreview, gather_leaves, status_at, is_skipped, is_had, queue_leaves,
  no_result, queue_container, queue_found, preview_found, preview_leaf, preview_leaves, no_preview,
  preview_container,
}

abbrev pub is_waiting : Option Status → Bool
is_waiting (some queued) = true
is_waiting _ = false

-- The leaves whose row is queued already.
unfoldable pub waiting : (Text → Option Status) → List Item → ℕ
waiting statuses [] = 0
waiting statuses (leaf ∷ leaves) =
    (if is_waiting (statuses leaf.id) then 1 else 0) + waiting statuses leaves

-- The leaves that the loop skips.
unfoldable pub had : (Text → Option Status) → List Item → ℕ
had statuses [] = 0
had statuses (leaf ∷ leaves) = (if is_had (statuses leaf.id) then 1 else 0) + had statuses leaves

status_split :
    (o : Option Status)
    → (if is_skipped o then 1 else 0)
      ≡ (if is_had o then 1 else 0) + (if is_waiting o then 1 else 0)
status_split o = ground arith

preview_leaf-had :
    (o : Option Status) (leaf : Item) (prev : ContainerPreview)
    → ((preview_leaf o leaf prev).already_have ≡ prev.already_have + (if is_had o then 1 else 0))
      × ((preview_leaf o leaf prev).to_queue + (if is_had o then 1 else 0) ≡ suc prev.to_queue)
unfolding preview_leaf
preview_leaf-had o leaf prev = elim (Bool-cases (is_had o)) [
  | inl h ↦ rw h (omega arith, omega arith)
  | inr h ↦ rw h (omega arith, omega arith)
]

preview_leaves-had :
    (statuses : Text → Option Status) (leaves : List Item) (prev : ContainerPreview)
    → ((preview_leaves statuses leaves prev).already_have ≡ prev.already_have + had statuses leaves)
      × ((preview_leaves statuses leaves prev).to_queue + had statuses leaves
          ≡ prev.to_queue + length leaves)
unfolding preview_leaves had
preview_leaves-had statuses [] prev = (omega arith, omega arith)
preview_leaves-had statuses (leaf ∷ leaves) prev =
    let (have, todo) =
      preview_leaves-had statuses leaves (preview_leaf (statuses leaf.id) leaf prev) in
    let (have', todo') = preview_leaf-had (statuses leaf.id) leaf prev in
    (omega (arith, have, have'), omega (arith, todo, todo'))

-- The counts of a run of the loop of QueueContainer that began with `res`.
record IsCounted (statuses : Text → Option Status) (leaves : List Item) (res out : BulkQueueResult)
    : Type 0 where
  total :
      out.queued + out.skipped + out.failed ≡ res.queued + res.skipped + res.failed + length leaves
  skipped : out.skipped ≡ res.skipped + (had statuses leaves + waiting statuses leaves)
  errors : length out.errors + res.failed ≡ length res.errors + out.failed

module _ (layout : Layout) (engine_source : Text) (now : ℕ) (statuses : Text → Option Status) where
  abbrev Runs : List Item → Type 0
  Runs leaves =
      (t : Table) (res : BulkQueueResult)
      → IsCounted statuses leaves res
          (queue_leaves layout engine_source now statuses leaves t res).1

  -- The rest of the loop, after the outcome of Queue on a leaf.
  abbrev pub attempted :
      Item → List Item → Table → BulkQueueResult → Queueing.Result → Table × BulkQueueResult
  attempted leaf leaves t res (Queueing.err e) =
      queue_leaves layout engine_source now statuses leaves t
        (record res { failed = suc res.failed; errors = res.errors ++ (leaf, e) ∷ [] })
  attempted leaf leaves t res (Queueing.ok id t') =
      queue_leaves layout engine_source now statuses leaves t'
        (record res { queued = suc res.queued; total_bytes = res.total_bytes + leaf.size_bytes })

  attempt-IsCounted :
      (leaf : Item) (leaves : List Item) (t : Table) (res : BulkQueueResult) (o : Queueing.Result)
      → 0
        ≡ (if is_had (statuses leaf.id) then 1 else 0)
          + (if is_waiting (statuses leaf.id) then 1 else 0)
      → Runs leaves
      → IsCounted statuses (leaf ∷ leaves) res (attempted leaf leaves t res o).1
  unfolding had waiting
  attempt-IsCounted leaf leaves t res (Queueing.err e) kinds again =
      let w =
        again t (record res { failed = suc res.failed; errors = res.errors ++ (leaf, e) ∷ [] }) in
      record {
        total = omega (arith, w.total);
        skipped = omega (arith, w.skipped, kinds);
        errors = omega (arith, w.errors, length-append res.errors ((leaf, e) ∷ []));
      }
  attempt-IsCounted leaf leaves t res (Queueing.ok id t') kinds again =
      let w =
        again t' (record res {
          queued = suc res.queued;
          total_bytes = res.total_bytes + leaf.size_bytes;
        }) in
      record {
        total = omega (arith, w.total);
        skipped = omega (arith, w.skipped, kinds);
        errors = omega (arith, w.errors);
      }

  queue_leaves-IsCounted : (leaves : List Item) → Runs leaves
  unfolding queue_leaves had waiting
  queue_leaves-IsCounted [] t res = record {
    total = omega arith;
    skipped = omega arith;
    errors = omega arith;
  }
  queue_leaves-IsCounted (leaf ∷ leaves) t res =
      let kinds = status_split (statuses leaf.id) in
      elim (Bool-cases (is_skipped (statuses leaf.id))) [
        | inl h ↦
            let w = queue_leaves-IsCounted leaves t (record res { skipped = suc res.skipped }) in
            let kind = rw h at kinds in
            rw h (record {
              total = omega (arith, w.total);
              skipped = omega (arith, w.skipped, kind);
              errors = omega (arith, w.errors);
            })
        | inr h ↦ rw h (
            attempt-IsCounted leaf leaves t res (queue layout engine_source leaf now t)
              (rw h at kinds) (queue_leaves-IsCounted leaves))
      ]

of_ok {ℓ} : {A : Type ℓ} {x y : A} → ok x ≡ ok y → x ≡ y
of_ok h = cc

err-ne-ok {ℓ} : {A : Type ℓ} {x : Failure} {a : A} → ¬ (err x ≡ ok a)
err-ne-ok h = cc

err-ne-pair :
    {t t' : Table} {x : Failure} {res : BulkQueueResult}
    → ¬ (◌≡◌ {A = Table × Result BulkQueueResult} (t, err x) (t', ok res))
err-ne-pair h = err-ne-ok (ap (λ o. o.1) h)

-- The counts of a run and of a preview over the same leaves.
abbrev pub IsPreviewed :
    (Text → Option Status) → List Item → BulkQueueResult → ContainerPreview → Type 0
IsPreviewed statuses leaves res prev =
    (res.queued + res.skipped + res.failed ≡ length leaves)
    × (length res.errors ≡ res.failed)
    × (res.skipped ≡ prev.already_have + waiting statuses leaves)
    × (prev.to_queue ≡ res.queued + res.failed + waiting statuses leaves)

loops-IsPreviewed :
    (layout : Layout) (engine_source : Text) (now : ℕ) (statuses : Text → Option Status)
    (leaves : List Item) (t : Table)
    → IsPreviewed statuses leaves
        (queue_leaves layout engine_source now statuses leaves t no_result).1
        (preview_leaves statuses leaves no_preview)
loops-IsPreviewed layout engine_source now statuses leaves t =
    let w = queue_leaves-IsCounted layout engine_source now statuses leaves t no_result in
    let (have, todo) = preview_leaves-had statuses leaves no_preview in
    (
      omega (arith, w.total),
      omega (arith, w.errors),
      omega (arith, w.skipped, have),
      omega (arith, w.total, w.skipped, todo),
    )

found-IsPreviewed :
    (rt : Runtime) (source_name : Text) (now : ℕ) (t t' : Table) (m : Result (List Item × Item))
    (res : BulkQueueResult) (prev : ContainerPreview)
    → queue_found rt source_name now t m ≡ (t', ok res)
    → preview_found source_name t m ≡ ok prev
    → (leaves : List Item) × (root : Item) × (m ≡ ok (leaves, root))
      × IsPreviewed (λ key. status_at source_name key t) leaves res prev
unfolding queue_found preview_found
found-IsPreviewed rt source_name now t t' (err x) res prev e f = absurd (err-ne-ok f)
found-IsPreviewed rt source_name now t t' (ok (leaves, root)) res prev e f =
    elim (Option-cases rt.engine) [
      | inl u ↦ absurd (err-ne-pair (rw (u, queue_found) at e))
      | inr (layout, u) ↦
          let run = of_ok (ap (λ o. o.1) (rw (u, queue_found) at e)) in
          (
            leaves,
            root,
            refl,
            rw (← run, ← of_ok f)
                (loops-IsPreviewed layout rt.engine_source now (λ key. status_at source_name key t)
                  leaves t),
          )
    ]

-- Where QueueContainer and PreviewContainer both succeed on the same table, each gathered leaf is counted
-- once as queued, skipped or failed, each failed one has its error, and the preview differs by
-- the `n` leaves whose row is queued already: it counts them as to be queued, and the run skips them.
pub queue_container-preview :
    (rt : Runtime) (source_name item_id : Text) (now : ℕ) (t t' : Table) (res : BulkQueueResult)
    (prev : ContainerPreview)
    → queue_container rt source_name item_id now t ≡ (t', ok res)
    → preview_container rt source_name item_id t ≡ ok prev
    → (leaves : List Item) × (root : Item) × ((downloadable_source rt source_name >>= λ b.
          gather_leaves b item_id)
        ≡ ok (leaves, root))
      × IsPreviewed (λ key. status_at source_name key t) leaves res prev
unfolding queue_container preview_container
queue_container-preview rt source_name item_id now t t' res prev e f =
    found-IsPreviewed rt source_name now t t'
      (downloadable_source rt source_name >>= λ b. gather_leaves b item_id) res prev e f
