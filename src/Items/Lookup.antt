-- ===== src/Items/Lookup.antt =====
-- What a lookup finds after each statement of the `items` table.
use plex_mirror.Base.{
  ℕ, ◌≡◌, refl, sym, ◌⊎◌, inl, inr, Bool, true, false, none, some, List, [], ◌∷◌, ◌++◌, arith,
  if◌then◌else◌, Bool-cases, Option-cases, Text, text_eq_iff,
}
use plex_mirror.Items.{Row, Table, has_key, find, update_where, delete_where, upsert}
use mathlib.Core.Option

-- A statement that leaves the columns of a WHERE clause alone.
abbrev pub Keeps : (Row → Bool) → (Row → Row) → Type 0
Keeps q f = (r : Row) → q (f r) ≡ q r

-- An update maps what a lookup finds, where the lookup does not read the updated columns.
pub find-update_where :
    (q p : Row → Bool) (f : Row → Row)
    → Keeps q f
    → (rs : List Row)
    → find q (update_where p f rs) ≡ Option.map (λ r. if p r then f r else r) (find q rs)
unfolding find update_where
find-update_where q p f k [] = refl
find-update_where q p f k (r ∷ rs) = elim (Bool-cases (p r)) [
  | inl e ↦ ground (arith, e, k r, find-update_where q p f k rs)
  | inr e ↦ ground (arith, e, find-update_where q p f k rs)
]

-- What a lookup finds satisfies its clause.
pub find_holds : (q : Row → Bool) (rs : List Row) {r : Row} → find q rs ≡ some r → q r ≡ true
unfolding find
find_holds q [] e = cc
find_holds q (x ∷ rs) {r} e = ground (arith, find_holds q rs {r = r})

pub find-append_none :
    (q : Row → Bool) (rs : List Row) (r : Row)
    → find q rs ≡ none
    → find q (rs ++ r ∷ []) ≡ (if q r then some r else none)
unfolding find
find-append_none q [] r e = refl
find-append_none q (x ∷ rs) r e = ground (arith, find-append_none q rs r)

pub find-append_some :
    (q : Row → Bool) (rs ss : List Row) {x : Row} → find q rs ≡ some x → find q (rs ++ ss) ≡ some x
unfolding find
find-append_some q [] ss e = cc
find-append_some q (y ∷ rs) ss {x} e = ground (arith, find-append_some q rs ss {x = x})

-- A delete hides exactly the rows it selects, for a lookup that selects by the same clause.
pub find-delete_self : (p : Row → Bool) (rs : List Row) → find p (delete_where p rs) ≡ none
unfolding find delete_where
find-delete_self p [] = refl
find-delete_self p (r ∷ rs) = ground (arith, find-delete_self p rs)

pub find-delete_other :
    (q p : Row → Bool) (rs : List Row)
    → ((r : Row) → q r ≡ true → p r ≡ false)
    → find q (delete_where p rs) ≡ find q rs
unfolding find delete_where
find-delete_other q p [] h = refl
find-delete_other q p (r ∷ rs) h = elim (Bool-cases (q r)) [
  | inl e ↦ ground (arith, e, h r e)
  | inr e ↦ ground (arith, e, find-delete_other q p rs h)
]

pub has_key_lem :
    (s k : Text) (r : Row) → has_key s k r ≡ true → (r.source ≡ s) × (r.source_key ≡ k)
has_key_lem s k r h = ground (arith, text_eq_iff r.source s, text_eq_iff r.source_key k)

pub has_key_intro : (s k : Text) (r : Row) → r.source ≡ s → r.source_key ≡ k → has_key s k r ≡ true
has_key_intro s k r e f = ground (arith, text_eq_iff r.source s, text_eq_iff r.source_key k)

-- After an upsert, its own key finds the merged row, or the fresh one.
pub find-upsert_self :
    (s k : Text) (fresh : ℕ → Row) (merge : Row → Row) (t : Table)
    → has_key s k (fresh t.next_id) ≡ true
    → Keeps (has_key s k) merge
    → find (has_key s k) (upsert s k fresh merge t).rows
      ≡ some (elim (find (has_key s k) t.rows) [ none ↦ fresh t.next_id | some r ↦ merge r ])
unfolding upsert
find-upsert_self s k fresh merge t own keeps = elim (Option-cases (find (has_key s k) t.rows)) [
  | inl e ↦ rw (e, upsert) (rw (find-append_none (has_key s k) t.rows (fresh t.next_id) e) (rw own))
  | inr (r, e) ↦
      rw (e, upsert)
        (rw (find-update_where (has_key s k) (has_key s k) merge keeps t.rows)
          (rw e (rw (find_holds (has_key s k) t.rows e))))
]

-- An update is invisible to a lookup whose hits it does not select.
pub find-update_apart :
    (q p : Row → Bool) (f : Row → Row)
    → Keeps q f
    → ((r : Row) → q r ≡ true → p r ≡ false)
    → (rs : List Row) → find q (update_where p f rs) ≡ find q rs
find-update_apart q p f keeps apart rs = elim (Option-cases (find q rs)) [
  | inl e ↦ rw (find-update_where q p f keeps rs) (rw e refl)
  | inr (r, e) ↦
      rw (find-update_where q p f keeps rs) (rw e (rw (apart r (find_holds q rs e)) refl))
]

-- Any other lookup that the merge leaves alone finds what it found.
pub find-upsert_other :
    (q : Row → Bool) (s k : Text) (fresh : ℕ → Row) (merge : Row → Row) (t : Table)
    → q (fresh t.next_id) ≡ false
    → ((r : Row) → q r ≡ true → has_key s k r ≡ false)
    → Keeps q merge
    → find q (upsert s k fresh merge t).rows ≡ find q t.rows
unfolding upsert
find-upsert_other q s k fresh merge t own apart keeps =
    elim (Option-cases (find (has_key s k) t.rows)) [
      | inl e ↦ rw (e, upsert) (missing (Option-cases (find q t.rows)))
      | inr (r, e) ↦ rw (e, upsert) (find-update_apart q (has_key s k) merge keeps apart t.rows)
    ]
  where
    missing :
        (find q t.rows ≡ none) ⊎ ((r : Row) × (find q t.rows ≡ some r))
        → find q (t.rows ++ fresh t.next_id ∷ []) ≡ find q t.rows
    missing (inl e) = rw (find-append_none q t.rows (fresh t.next_id) e) (rw (own, e))
    missing (inr (r, e)) = rw (find-append_some q t.rows (fresh t.next_id ∷ []) e) (sym e)
