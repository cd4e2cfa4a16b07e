-- ===== src/Storage/Guard.antt =====
-- The files that internal/storage/manager.go may remove.
use mathlib.Core.Bool.{false≢true}
use plex_mirror.Base.{
  ℕ, ◌≡◌, refl, sym, ap, ◌∙◌, inl, inr, Bool, true, false, not, ◌&&◌, Option, none, some, List, [],
  ◌∷◌, arith, if◌then◌else◌, Bool-cases, Option-cases, or_else, Text, length, text_eq, text_eq_iff,
  is_empty,
}
use plex_mirror.Base.Int.{ℤ, at_most}
use plex_mirror.Items.{has_id, find}
use plex_mirror.Files.{Files, content_at, content_at-erase}
use plex_mirror.Storage.{Policy, Env, Disk, Reason, used_bytes, guard_path, remove_file, evict_item}
use plex_mirror.Storage.Eviction.{
  Sweep, eviction_target, evict_loop, finish, evict_now, evict_candidate,
}
use plex_mirror.Storage.Candidates.{Candidate, ready_candidates}

-- Removing a file that the guard passes leaves each file that it does not pass.
content_at-remove_file :
    (env : Env) (policy : Policy) (p path : Text) (fs : Files)
    → guard_path env policy p ≡ false
    → guard_path env policy path ≡ true
    → content_at p (remove_file env path fs) ≡ content_at p fs
unfolding remove_file
content_at-remove_file env policy p path fs h g = elim (Bool-cases (env.refuses path)) [
  | inl e ↦ rw e
  | inr e ↦ rw e (rw (content_at-erase p path fs) (rw apart))
]
  where
    apart : text_eq path p ≡ false
    apart = elim (Bool-cases (text_eq path p)) [
      | inl q ↦
          absurd
            (false≢true (sym h ∙ ap (guard_path env policy) (sym ((text_eq_iff path p).0 q)) ∙ g))
      | inr q ↦ q
    ]

module _ (env : Env) (policy : Policy) (dry : Bool) (target : ℤ) (reason : Reason) (p : Text)
    (h : guard_path env policy p ≡ false) where
  content_at-evict_candidate :
      (c : Candidate) (d : Disk)
      → guard_path env policy c.path ≡ true
      → content_at p (evict_candidate env dry c d).files ≡ content_at p d.files
  unfolding evict_candidate
  content_at-evict_candidate c d g = elim (Bool-cases dry) [
    | inl e ↦ rw e
    | inr e ↦ rw e (content_at-remove_file env policy p c.path d.files h g)
  ]

  content_at-evict_loop :
      (cs : List Candidate) (s : Sweep)
      → content_at p (evict_loop env policy dry target reason cs s).0.disk.files
        ≡ content_at p s.disk.files
  unfolding evict_loop
  content_at-evict_loop [] s = refl
  content_at-evict_loop (c ∷ cs) s = elim (Bool-cases (at_most s.running target)) [
    | inl e ↦ rw e
    | inr e ↦ elim (Bool-cases (guard_path env policy c.path)) [
      | inr g ↦ rw (e, g) (content_at-evict_loop cs s)
      | inl g ↦ elim (Bool-cases (not dry && env.update_fails c.id)) [
        | inl f ↦ rw (e, g, f) (content_at-remove_file env policy p c.path s.disk.files h g)
        | inr f ↦ rw (e, g, f) (content_at-evict_loop cs _ ∙ content_at-evict_candidate c s.disk g)
      ]
    ]
  ]

pub finish-disk :
    (dry : Bool) (used scanned : ℕ) (s : Sweep) (failure : Option ℕ)
    → (finish dry used scanned (s, failure)).0 ≡ s.disk
unfolding finish
finish-disk dry used scanned s none = refl
finish-disk dry used scanned s (some id) = refl

module _ (env : Env) (policy : Policy) (d : Disk) (p : Text)
    (h : guard_path env policy p ≡ false) where
  content_at-evict_now :
      (dry : Bool) → content_at p (evict_now env policy dry d).0.files ≡ content_at p d.files
  unfolding evict_now
  content_at-evict_now dry = elim (Option-cases (eviction_target policy (used_bytes d.table))) [
    | inl e ↦ rw (e, evict_now)
    | inr ((target, reason), e) ↦
        let candidates = ready_candidates d.table in
        let start : Sweep = record { disk = d; running = used_bytes d.table; evicted_items = [] } in
        let after = evict_loop env policy dry target reason candidates start in
        rw (e, evict_now)
          (ap (λ (x : Disk). content_at p x.files)
              (finish-disk dry (used_bytes d.table) (length candidates) after.0 after.1)
            ∙ content_at-evict_loop env policy dry target reason p h candidates start)
  ]

  content_at-evict_path :
      (path : Text)
      → (not (is_empty path) && not (guard_path env policy path)) ≡ false
      → content_at p (if is_empty path then d.files else remove_file env path d.files)
        ≡ content_at p d.files
  content_at-evict_path [] e = refl
  content_at-evict_path (c ∷ cs) e =
      content_at-remove_file env policy p (c ∷ cs) d.files h (ground arith)

  content_at-evict_item :
      (id : ℕ) → content_at p (evict_item env policy id d).0.files ≡ content_at p d.files
  unfolding evict_item
  content_at-evict_item id = elim (Option-cases (find (has_id id) d.table.rows)) [
    | inl e ↦ rw (e, evict_item)
    | inr (r, e) ↦
        let path = or_else [] r.local_path in
        elim (Bool-cases (not (is_empty path) && not (guard_path env policy path))) [
          | inl g ↦ rw (e, evict_item) (rw g)
          | inr g ↦ elim (Bool-cases (env.update_fails id)) [
            | inl f ↦ rw (e, evict_item) (rw (g, f) (content_at-evict_path path g))
            | inr f ↦ rw (e, evict_item) (rw (g, f) (content_at-evict_path path g))
          ]
        ]
  ]

-- No run of EvictNow, dry or not, removes a file whose path the guard refuses, such as one outside
-- the media root; nor does a manual eviction of any row.
pub eviction_keeps_outside :
    (env : Env) (policy : Policy) (d : Disk) (p : Text)
    → guard_path env policy p ≡ false
    → ((dry : Bool) → content_at p (evict_now env policy dry d).0.files ≡ content_at p d.files)
      × ((id : ℕ) → content_at p (evict_item env policy id d).0.files ≡ content_at p d.files)
eviction_keeps_outside env policy d p h =
    (content_at-evict_now env policy d p h, content_at-evict_item env policy d p h)
