-- ===== src/Portal/Badges.antt =====
-- statusMap and findMirror of internal/server/portal.go against the `items` table.
use plex_mirror.Base.{
  ◌≡◌, refl, sym, ap, ◌∙◌, ◌↔◌, ◌⊎◌, inl, inr, Bool, true, false, not, ◌&&◌, ◌||◌, Option, none,
  some, List, [], ◌∷◌, Text, text_eq, Bool-cases, if◌then◌else◌,
}
use mathlib.Core.Bool.{false≢true}
use plex_mirror.Items.{
  Row, Table, Status, queued, downloading, ready, evicted, error, is_ready, has_key, find,
}
use plex_mirror.Items.Order.{IsWellFormed}
use plex_mirror.Items.Single.{
  IsSingle, kept, find-listed, find-listed_back, listed-IsSingle, listed_back-IsSingle,
  Unique-IsSingle,
}
use plex_mirror.Service.Queries.{is_in_flight, in_flight, is_listed, list_mirrored, nulls_first}
use plex_mirror.Portal.{
  Statuses, assign, add_statuses, status_map, find_mirror, may_queue, item_queueable,
}

abbrev pub is_evicted : Status → Bool
is_evicted evicted = true
is_evicted _ = false

-- The row of an item that the portal has a badge for.
abbrev pub unless_evicted : Option Row → Option Row
unless_evicted none = none
unless_evicted (some r) = if is_evicted r.status then none else some r

abbrev pub status_of : Option Row → Option Status
status_of none = none
status_of (some r) = some r.status

-- The status that a map takes over from a row.
abbrev over : Option Row → Option Status → Option Status
over none s = s
over (some r) s = some r.status

abbrev first_of : Option Row → Option Row → Option Row
first_of a b = elim a [ some r ↦ some r | none ↦ b ]

module _ (p q q' : Row → Bool) where
  abbrev either : Row → Bool
  either r = q r || q' r

  first_of-kept : (o : Option Row) → first_of (kept p q o) (kept p q' o) ≡ kept p either o
  first_of-kept none = refl
  first_of-kept (some r) = elim (Bool-cases (q r)) [
    | inl e ↦ rw e refl
    | inr e ↦ elim (Bool-cases (q' r)) [ inl f ↦ rw (e, f) refl | inr f ↦ rw (e, f) refl ]
  ]

  over-kept :
      (o : Option Row) → over (kept p q' o) (over (kept p q o) none) ≡ over (kept p either o) none
  over-kept none = refl
  over-kept (some r) = elim (Bool-cases (q r)) [
    | inl e ↦ elim (Bool-cases (q' r)) [ inl f ↦ rw (e, f) refl | inr f ↦ rw (e, f) refl ]
    | inr e ↦ elim (Bool-cases (q' r)) [ inl f ↦ rw (e, f) refl | inr f ↦ rw (e, f) refl ]
  ]

module _ (source key : Text) where
  abbrev p : Row → Bool
  p = has_key source key

  add_statuses-lookup :
      (rs : List Row) (m : Statuses)
      → IsSingle p rs
      → add_statuses source rs m key ≡ over (find p rs) (m key)
  unfolding add_statuses find
  add_statuses-lookup [] m h = refl
  add_statuses-lookup (r ∷ rs) m h = elim (Bool-cases (text_eq r.source source)) [
    | inr e ↦ rw e (add_statuses-lookup rs m h.1)
    | inl e ↦ elim (Bool-cases (text_eq r.source_key key)) [
      | inl f ↦
          rw (e, f)
            (add_statuses-lookup rs (assign r.source_key r.status m) h.1
              ∙ ap (λ (o : Option Row). over o (assign r.source_key r.status m key))
                  (h.0 (rw (e, f) refl))
              ∙ rw f refl)
      | inr f ↦ rw (e, f) (add_statuses-lookup rs (assign r.source_key r.status m) h.1 ∙ rw f refl)
    ]
  ]

  module _ (t : Table) (w : IsWellFormed t) where
    single : IsSingle p t.rows
    single = Unique-IsSingle source key t.rows w.unique

    abbrev flies : Row → Bool
    flies r = is_in_flight r.status

    find-in_flight : find p (in_flight t) ≡ kept p flies (find p t.rows)
    unfolding in_flight
    find-in_flight = find-listed p (λ r. r.queued_at) flies t.rows single

    find-list_mirrored : find p (list_mirrored [] t) ≡ kept p (is_listed []) (find p t.rows)
    unfolding list_mirrored
    find-list_mirrored =
        find-listed_back p (λ r. nulls_first r.completed_at) (is_listed []) t.rows single

    find_mirror-shown :
        find_mirror source key t ≡ kept p (either p flies (is_listed [])) (find p t.rows)
    unfolding find_mirror
    find_mirror-shown =
        ap (λ (a : Option Row). first_of a (find p (list_mirrored [] t))) find-in_flight
        ∙ ap (first_of (kept p flies (find p t.rows))) find-list_mirrored
        ∙ first_of-kept p flies (is_listed []) (find p t.rows)

    status_map-shown :
        status_map source t key ≡ over (kept p (either p flies (is_listed [])) (find p t.rows)) none
    unfolding status_map in_flight list_mirrored
    status_map-shown =
        add_statuses-lookup (list_mirrored [] t) _
          (listed_back-IsSingle p (λ r. nulls_first r.completed_at) (is_listed []) t.rows single)
        ∙ ap (over (find p (list_mirrored [] t))) (
            add_statuses-lookup (in_flight t) (λ n. none)
              (listed-IsSingle p (λ r. r.queued_at) flies t.rows single))
        ∙ ap (λ (a : Option Row). over (find p (list_mirrored [] t)) (over a none)) find-in_flight
        ∙ ap (λ (a : Option Row). over a (over (kept p flies (find p t.rows)) none))
            find-list_mirrored
        ∙ over-kept p flies (is_listed []) (find p t.rows)

listed_status : (s : Status) → (is_in_flight s || (is_ready s && true)) ≡ not (is_evicted s)
listed_status queued = refl
listed_status downloading = refl
listed_status ready = refl
listed_status evicted = refl
listed_status error = refl

shown_row :
    (p : Row → Bool) (o : Option Row)
    → kept p (λ r. is_in_flight r.status || is_listed [] r) o ≡ unless_evicted o
shown_row p none = refl
shown_row p (some r) = elim (Bool-cases (is_evicted r.status)) [
  | inl e ↦ rw (listed_status r.status, e) refl
  | inr e ↦ rw (listed_status r.status, e) refl
]

over-status : (o : Option Row) → over o none ≡ status_of o
over-status none = refl
over-status (some r) = refl

-- No row of the item is waiting, in transfer or ready.
abbrev pub IsIdle : Option Row → Type 0
IsIdle none = Unit
IsIdle (some r) = (r.status ≡ error) ⊎ (r.status ≡ evicted)

busy : (s : Status) → may_queue (some s) ≡ false → (false ≡ true) ↔ ((s ≡ error) ⊎ (s ≡ evicted))
busy s h =
    (λ e. absurd (false≢true e), λ k. elim k [ inl e ↦ sym (rw e at h) | inr e ↦ sym (rw e at h) ])

queueable_iff :
    (o : Option Row) → (item_queueable true (status_of (unless_evicted o)) ≡ true) ↔ IsIdle o
unfolding item_queueable
queueable_iff none = (λ h. tt, λ h. refl)
queueable_iff (some r) = by_status r.status refl
  where
    by_status :
        (s : Status)
        → r.status ≡ s
        → (item_queueable true (status_of (unless_evicted (some r))) ≡ true) ↔ IsIdle (some r)
    by_status queued e = rw e (busy queued refl)
    by_status downloading e = rw e (busy downloading refl)
    by_status ready e = rw e (busy ready refl)
    by_status evicted e = rw e (λ h. inr refl, λ h. refl)
    by_status error e = rw e (λ h. inl refl, λ h. refl)

-- What the portal shows of an item is what the table says: findMirror returns the one row of the
-- source and the item unless it is evicted, statusMap has its status, and where the source is
-- downloadable the Queue button is offered exactly where no row is queued, downloading or ready.
pub portal_shows :
    (source key : Text) (t : Table)
    → IsWellFormed t
    → (find_mirror source key t ≡ unless_evicted (find (has_key source key) t.rows))
      × (status_map source t key ≡ status_of (unless_evicted (find (has_key source key) t.rows)))
      × ((item_queueable true (status_map source t key) ≡ true)
          ↔ IsIdle (find (has_key source key) t.rows))
portal_shows source key t w =
    let row = find (has_key source key) t.rows in
    let shown = shown_row (has_key source key) row in
    let badge : status_map source t key ≡ status_of (unless_evicted row) =
      status_map-shown source key t w
      ∙ ap (λ (o : Option Row). over o none) shown
      ∙ over-status (unless_evicted row) in
    (find_mirror-shown source key t w ∙ shown, badge, rw badge (queueable_iff row))
