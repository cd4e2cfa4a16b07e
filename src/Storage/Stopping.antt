-- ===== src/Storage/Stopping.antt =====
-- Where EvictNow of internal/storage/manager.go stops, and what a dry run of it tells.
use mathlib.Core.Bool.{false≢true}
use mathlib.Core.Option.{none-ne-some}
use mathlib.Core.List.{append-nil, append_assoc}
use plex_mirror.Base.{
  ℕ, ◌-◌, ◌≤◌, ◌≡◌, refl, sym, ◌∙◌, ◌⊎◌, inl, inr, Bool, true, false, not, ◌&&◌, Option, none, some,
  List, [], ◌∷◌, ◌++◌, arith, if◌then◌else◌, Bool-cases, Option-cases, length,
}
use plex_mirror.Base.Int.{ℤ, pos, negsuc, at_most}
use plex_mirror.Storage.{Policy, Env, Disk, Reason, EvictedItem, used_bytes, guard_path}
use plex_mirror.Storage.Eviction.{
  Sweep, eviction_target, evict_loop, start_report, finish, evict_now, evict_candidate,
}
use plex_mirror.Storage.Guard.{finish-disk}
use plex_mirror.Storage.Candidates.{Candidate, ready_candidates}

-- The candidates' items that pass the guard, in order.
unfoldable pub guarded_items : Env → Policy → Reason → List Candidate → List EvictedItem
guarded_items env policy reason [] = []
guarded_items env policy reason (c ∷ cs) =
    let rest = guarded_items env policy reason cs in
    if guard_path env policy c.path
    then record { id = c.id; local_path = c.path; size_bytes = c.size; reason = reason } ∷ rest
    else rest

at_most_mono : (m n : ℕ) (z : ℤ) → m ≤ n → at_most n z ≡ true → at_most m z ≡ true
unfolding at_most
at_most_mono m n (pos z) h e = ground arith
at_most_mono m n (negsuc z) h e = e

module _ (env : Env) (policy : Policy) (target : ℤ) (reason : Reason) where
  evict_loop_falls :
      (dry : Bool) (cs : List Candidate) (s : Sweep)
      → (evict_loop env policy dry target reason cs s).0.running ≤ s.running
  unfolding evict_loop
  evict_loop_falls dry [] s = omega arith
  evict_loop_falls dry (c ∷ cs) s = elim (Bool-cases (at_most s.running target)) [
    | inl e ↦ rw e (omega arith)
    | inr e ↦ elim (Bool-cases (guard_path env policy c.path)) [
      | inr g ↦ rw (e, g) (evict_loop_falls dry cs s)
      | inl g ↦ elim (Bool-cases (not dry && env.update_fails c.id)) [
        | inl f ↦ rw (e, g, f) (omega arith)
        | inr f ↦ rw (e, g, f) (omega (arith, evict_loop_falls dry cs _))
      ]
    ]
  ]

-- Two loops counted the same and met no failure.
abbrev SameCount : Sweep × Option ℕ → Sweep × Option ℕ → Type 0
SameCount (s, e) (s', e') =
    (s.running ≡ s'.running) × (s.evicted_items ≡ s'.evicted_items) × (e ≡ none) × (e' ≡ none)

module _ (env : Env) (policy : Policy) (target : ℤ) (reason : Reason) where
  evict_loop_stops :
      (dry : Bool) (cs : List Candidate) (s : Sweep)
      → (evict_loop env policy dry target reason cs s).1 ≡ none
      → at_most (evict_loop env policy dry target reason cs s).0.running target ≡ false
      → (evict_loop env policy dry target reason cs s).0.evicted_items
        ≡ s.evicted_items ++ guarded_items env policy reason cs
  unfolding evict_loop guarded_items
  evict_loop_stops dry [] s q h = sym (append-nil s.evicted_items)
  evict_loop_stops dry (c ∷ cs) s q h = elim (Bool-cases (at_most s.running target)) [
    | inl e ↦ absurd (false≢true (sym (rw e at h) ∙ e))
    | inr e ↦ elim (Bool-cases (guard_path env policy c.path)) [
      | inr g ↦ rw (e, g) (evict_loop_stops dry cs s (rw (e, g) at q) (rw (e, g) at h))
      | inl g ↦ elim (Bool-cases (not dry && env.update_fails c.id)) [
        | inl f ↦ absurd (none-ne-some _ (sym (rw (e, g, f) at q)))
        | inr f ↦
            rw (e, g, f)
              (evict_loop_stops dry cs _ (rw (e, g, f) at q) (rw (e, g, f) at h)
                ∙ append_assoc s.evicted_items _ _)
      ]
    ]
  ]

  evict_loop_dry_disk :
      (cs : List Candidate) (s : Sweep)
      → (evict_loop env policy true target reason cs s).0.disk ≡ s.disk
  unfolding evict_loop evict_candidate
  evict_loop_dry_disk [] s = refl
  evict_loop_dry_disk (c ∷ cs) s = elim (Bool-cases (at_most s.running target)) [
    | inl e ↦ rw e
    | inr e ↦ elim (Bool-cases (guard_path env policy c.path)) [
      | inr g ↦ rw (e, g) (evict_loop_dry_disk cs s)
      | inl g ↦ rw (e, g) (evict_loop_dry_disk cs _)
    ]
  ]

  evict_loop_dry :
      (cs : List Candidate) (d d' : Disk) (n : ℕ) (is : List EvictedItem)
      → ((id : ℕ) → env.update_fails id ≡ false)
      → let s : Sweep = record { disk = d; running = n; evicted_items = is } in
        let s' : Sweep = record { disk = d'; running = n; evicted_items = is } in
        SameCount
          (evict_loop env policy false target reason cs s)
          (evict_loop env policy true target reason cs s')
  unfolding evict_loop evict_candidate
  evict_loop_dry [] d d' n is h = (refl, refl, refl, refl)
  evict_loop_dry (c ∷ cs) d d' n is h = elim (Bool-cases (at_most n target)) [
    | inl e ↦ rw e (refl, refl, refl, refl)
    | inr e ↦ elim (Bool-cases (guard_path env policy c.path)) [
      | inr g ↦ rw (e, g) (evict_loop_dry cs d d' n is h)
      | inl g ↦ rw (e, g, h c.id) (evict_loop_dry cs _ d' (n - c.size) _ h)
    ]
  ]

finish_stops :
    (dry : Bool) (used scanned : ℕ) (target : ℤ) (items : List EvictedItem) (s : Sweep)
    (failure : Option ℕ)
    → (failure ≡ none → at_most s.running target ≡ false → s.evicted_items ≡ items)
    → (finish dry used scanned (s, failure)).2 ≡ none
    → (at_most (finish dry used scanned (s, failure)).1.used_bytes_after target ≡ true)
      ⊎ ((finish dry used scanned (s, failure)).1.evicted_items ≡ items)
unfolding finish
finish_stops dry used scanned target items s none h q =
    elim (Bool-cases (at_most s.running target)) [ inl a ↦ inl a | inr a ↦ inr (h refl a) ]
finish_stops dry used scanned target items s (some id) h q = absurd (none-ne-some _ (sym q))

-- A run that reports no failure ends at or below its target, or has evicted every candidate that
-- the guard passes, oldest first.
pub evict_now_stops :
    (env : Env) (policy : Policy) (dry : Bool) (d : Disk) (target : ℤ) (reason : Reason)
    → eviction_target policy (used_bytes d.table) ≡ some (target, reason)
    → (evict_now env policy dry d).2 ≡ none
    → (at_most (evict_now env policy dry d).1.used_bytes_after target ≡ true)
      ⊎ ((evict_now env policy dry d).1.evicted_items
          ≡ guarded_items env policy reason (ready_candidates d.table))
unfolding evict_now
evict_now_stops env policy dry d target reason e q =
    let start : Sweep = record { disk = d; running = used_bytes d.table; evicted_items = [] } in
    let candidates = ready_candidates d.table in
    let after = evict_loop env policy dry target reason candidates start in
    rw (e, evict_now)
      (finish_stops dry (used_bytes d.table) (length candidates) target
        (guarded_items env policy reason candidates) after.0 after.1
        (evict_loop_stops env policy target reason dry candidates start) (rw (e, evict_now) at q))

finish_dry :
    (used scanned : ℕ) (r r' : Sweep × Option ℕ)
    → SameCount r r'
    → ((finish false used scanned r).1
        ≡ record ((finish true used scanned r').1) { dry_run = false })
      × ((finish false used scanned r).2 ≡ none)
      × ((finish true used scanned r').2 ≡ none)
unfolding finish
finish_dry used scanned (s, f) (s', f') (n, is, e, e') =
    (rw (e, e', n, is) refl, rw e refl, rw e' refl)

-- A dry run leaves table and files alone, and where no UPDATE fails its report is that of the real
-- run, but for the flag.
pub evict_now_dry_run :
    (env : Env) (policy : Policy) (d : Disk)
    → ((id : ℕ) → env.update_fails id ≡ false)
    → ((evict_now env policy true d).0 ≡ d)
      × ((evict_now env policy false d).1
          ≡ record ((evict_now env policy true d).1) { dry_run = false })
      × ((evict_now env policy false d).2 ≡ none)
      × ((evict_now env policy true d).2 ≡ none)
unfolding evict_now start_report
evict_now_dry_run env policy d h =
    elim (Option-cases (eviction_target policy (used_bytes d.table))) [
      | inl e ↦ rw (e, evict_now) (refl, refl, refl, refl)
      | inr ((target, reason), e) ↦
          let start : Sweep = record {
            disk = d;
            running = used_bytes d.table;
            evicted_items = [];
          } in
          let candidates = ready_candidates d.table in
          let real = evict_loop env policy false target reason candidates start in
          let dry = evict_loop env policy true target reason candidates start in
          let (report, failure, failure') =
            finish_dry (used_bytes d.table) (length candidates) real dry
              (evict_loop_dry env policy target reason candidates d d (used_bytes d.table) [] h) in
          rw (e, evict_now)
            (
              finish-disk true (used_bytes d.table) (length candidates) dry.0 dry.1
                  ∙ evict_loop_dry_disk env policy target reason candidates start,
              report,
              failure,
              failure',
            )
    ]
