-- ===== src/Lifecycle/Operations.antt =====
-- EvictNow, EvictItem, the sweeper and Cancel run statements of the step relation only.
use plex_mirror.Base.{
  ℕ, inl, inr, Bool, false, not, ◌&&◌, or_else, List, [], ◌∷◌, Bool-cases, Option-cases, Text,
  is_empty, length,
}
use plex_mirror.Base.Int.{ℤ, at_most}
use plex_mirror.Items.{has_id, find}
use plex_mirror.Storage.{Policy, Env, Disk, Reason, used_bytes, evict_item, guard_path}
use plex_mirror.Storage.Eviction.{
  Sweep, eviction_target, evict_candidate, evict_loop, evict_now, sweep,
}
use plex_mirror.Storage.Candidates.{Candidate, ready_candidates}
use plex_mirror.Storage.Guard.{finish-disk}
use plex_mirror.Service.{is_cancellable, item_by_id, cancel}
use plex_mirror.Lifecycle.{IsReachable, next, evicts, cancels}

module _ (env : Env) (policy : Policy) where
  evict_candidate-IsReachable :
      (dry : Bool) (c : Candidate) (d : Disk)
      → IsReachable d.table
      → IsReachable (evict_candidate env dry c d).table
  unfolding evict_candidate
  evict_candidate-IsReachable dry c d v = elim (Bool-cases dry) [
    | inl e ↦ rw e v
    | inr e ↦ rw e (next v (evicts c.id))
  ]

  evict_loop-IsReachable :
      (dry : Bool) (target : ℤ) (reason : Reason) (cs : List Candidate) (s : Sweep)
      → IsReachable s.disk.table
      → IsReachable (evict_loop env policy dry target reason cs s).0.disk.table
  unfolding evict_loop
  evict_loop-IsReachable dry target reason [] s v = v
  evict_loop-IsReachable dry target reason (c ∷ cs) s v =
      elim (Bool-cases (at_most s.running target)) [
        | inl e ↦ rw e v
        | inr e ↦ elim (Bool-cases (guard_path env policy c.path)) [
          | inr g ↦ rw (e, g) (evict_loop-IsReachable dry target reason cs s v)
          | inl g ↦ elim (Bool-cases (not dry && env.update_fails c.id)) [
            | inl f ↦ rw (e, g, f) v
            | inr f ↦
                rw (e, g, f)
                  (evict_loop-IsReachable dry target reason cs _
                    (evict_candidate-IsReachable dry c s.disk v))
          ]
        ]
      ]

  pub evict_now-IsReachable :
      (dry : Bool) (d : Disk)
      → IsReachable d.table
      → IsReachable (evict_now env policy dry d).0.table
  unfolding evict_now
  evict_now-IsReachable dry d v =
      elim (Option-cases (eviction_target policy (used_bytes d.table))) [
        | inl e ↦ rw (e, evict_now) v
        | inr ((target, reason), e) ↦
            let candidates = ready_candidates d.table in
            let start : Sweep = record {
              disk = d;
              running = used_bytes d.table;
              evicted_items = [];
            } in
            let after = evict_loop env policy dry target reason candidates start in
            rw (e, evict_now)
              (rw (finish-disk dry (used_bytes d.table) (length candidates) after.0 after.1)
                (evict_loop-IsReachable dry target reason candidates start v))
      ]

  pub evict_item-IsReachable :
      (id : ℕ) (d : Disk) → IsReachable d.table → IsReachable (evict_item env policy id d).0.table
  unfolding evict_item
  evict_item-IsReachable id d v = elim (Option-cases (find (has_id id) d.table.rows)) [
    | inl e ↦ rw (e, evict_item) v
    | inr (r, e) ↦
        let path = or_else [] r.local_path in
        elim (Bool-cases (not (is_empty path) && not (guard_path env policy path))) [
          | inl g ↦ rw (e, evict_item) (rw g v)
          | inr g ↦ elim (Bool-cases (env.update_fails id)) [
            | inl f ↦ rw (e, evict_item) (rw (g, f) v)
            | inr f ↦ rw (e, evict_item) (rw (g, f) (next v (evicts id)))
          ]
        ]
  ]

  pub sweep-IsReachable : (d : Disk) → IsReachable d.table → IsReachable (sweep env policy d).table
  unfolding sweep
  sweep-IsReachable d v = elim (Option-cases (eviction_target policy (used_bytes d.table))) [
    | inl e ↦ rw (e, sweep) v
    | inr (x, e) ↦ rw (e, sweep) (evict_now-IsReachable false d v)
  ]

pub cancel-IsReachable :
    (env : Env) (digest : Text → Text) (media_root : Text) (id : ℕ) (d : Disk)
    → IsReachable d.table
    → IsReachable (cancel env digest media_root id d).0.table
unfolding cancel item_by_id
cancel-IsReachable env digest media_root id d v =
    elim (Option-cases (find (has_id id) d.table.rows)) [
      | inl e ↦ rw (e, cancel, item_by_id) v
      | inr (r, e) ↦ elim (Bool-cases (is_cancellable r.status)) [
        | inl h ↦ rw (e, h, cancel, item_by_id) (next v (cancels id))
        | inr h ↦ rw (e, h, cancel, item_by_id) v
      ]
    ]
