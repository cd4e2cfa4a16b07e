-- ===== src/Service/BulkEvict/Still.antt =====
-- The ready rows of the leaves of a container, through the loop of EvictContainer in
-- internal/service/bulk.go.
use mathlib.Core.Bool.{false≢true}
use plex_mirror.Base.{
  ℕ, suc, ◌≤◌, ◌≡◌, refl, sym, ap, ◌∙◌, ◌≢◌, inl, inr, true, false, Option, none, some, of_some,
  List, [], ◌∷◌, arith, if◌then◌else◌, ==_iff, Bool-cases, Option-cases, All, Text, text_eq,
  text_eq_iff,
}
use plex_mirror.Items.{Row, Table, is_ready, size_of, has_key, has_id, find}
use plex_mirror.Items.Order.{Ids, IsWellFormed}
use plex_mirror.Items.Lookup.{has_key_lem, find_holds}
use plex_mirror.Source.{Item}
use plex_mirror.Service.BulkEvict.{ready_at}

-- The row that a key finds is the one that its id finds.
found_above :
    (s k : Text) (lo hi : ℕ) (rs : List Row) (r : Row)
    → Ids lo hi rs
    → find (has_key s k) rs ≡ some r
    → (lo ≤ r.id) × (find (has_id r.id) rs ≡ some r)
unfolding find
found_above s k lo hi [] r v e = cc
found_above s k lo hi (x ∷ rs) r v e = elim (Bool-cases (has_key s k x)) [
  | inl h ↦
      let same : x ≡ r = of_some (rw h at e) in
      rw (← same) (v.0, rw ((==_iff x.id x.id).1 refl) refl)
  | inr h ↦
      let (above, found) = found_above s k (suc x.id) hi rs r v.1 (rw h at e) in
      (omega (arith, v.0, above), ground (arith, above, found))
]

-- The leaf's row, if it was ready when the loop began, is as it was then.
abbrev pub IsStillAt : Table → Text → Option (ℕ × ℕ) → Type 0
IsStillAt t key none = Unit {0}
IsStillAt t key (some (id, size)) =
    (r : Row) × (find (has_id id) t.rows ≡ some r)
    × (r.source_key ≡ key)
    × (is_ready r.status ≡ true)
    × (size_of r ≡ size)

abbrev pub IsStill : (Text → Option (ℕ × ℕ)) → Table → Item → Type 0
IsStill ready_rows t leaf = IsStillAt t leaf.id (ready_rows leaf.id)

pub still_at :
    (t t' : Table) (id : ℕ) (r : Row) (key key' : Text) (o : Option (ℕ × ℕ))
    → find (has_id id) t.rows ≡ some r
    → r.source_key ≡ key
    → text_eq key' key ≡ false
    → ((j : ℕ) → j ≢ id → find (has_id j) t'.rows ≡ find (has_id j) t.rows)
    → IsStillAt t key' o
    → IsStillAt t' key' o
still_at t t' id r key key' none e k ne same h = tt
still_at t t' id r key key' (some (id', size)) e k ne same (r', e', k', ready, q) =
    (r', same id' apart ∙ e', k', ready, q)
  where
    apart : id' ≢ id
    apart p =
        let row : r' ≡ r = of_some (sym e' ∙ ap (λ j. find (has_id j) t.rows) p ∙ e) in
        let keys : key' ≡ key = sym k' ∙ ap (λ (x : Row). x.source_key) row ∙ k in
        false≢true (sym ne ∙ (text_eq_iff key' key).1 keys)

still_first :
    (source key : Text) (t : Table) (r : Row)
    → find (has_key source key) t.rows ≡ some r
    → IsWellFormed t
    → IsStillAt t key (if is_ready r.status then some (r.id, size_of r) else none)
still_first source key t r e v = elim (Bool-cases (is_ready r.status)) [
  | inl p ↦ rw p (
    r,
    (found_above source key 1 t.next_id t.rows r v.ordered e).1,
    (has_key_lem source key r (find_holds (has_key source key) t.rows {r = r} e)).1,
    p,
    refl,
  )
  | inr p ↦ rw p tt
]

pub IsStill-All :
    (source : Text) (t : Table) (leaves : List Item)
    → IsWellFormed t
    → All (IsStill (λ key. ready_at source key t) t) leaves
IsStill-All source t [] v = tt
IsStill-All source t (leaf ∷ leaves) v = (first, IsStill-All source t leaves v)
  where
    first : IsStill (λ key. ready_at source key t) t leaf
    first = elim (Option-cases (find (has_key source leaf.id) t.rows)) [
      | inl e ↦ rw (e, ready_at) tt
      | inr (r, e) ↦ rw (e, ready_at) (still_first source leaf.id t r e v)
    ]
