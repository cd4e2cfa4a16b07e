-- ===== src/Items/Order.antt =====
-- The constraints of the `items` table: ids grow along the table and stay below the next one, and
-- no two rows share (source, source_key). Every statement keeps them.
use mathlib.Core.Bool.{false≢true}
use plex_mirror.Base.{
  ℕ, suc, ◌≤◌, ◌≡◌, refl, sym, ◌∙◌, true, false, ◌&&◌, text_eq, inl, inr, Bool, false, none, List,
  [], ◌∷◌, ◌++◌, arith, Bool-cases, Option-cases, Text, text_eq_iff,
}
use plex_mirror.Items.{
  Row, Table, has_key, has_id, find, update_where, delete_where, update, upsert, empty_table,
}
use plex_mirror.Items.Lookup.{has_key_intro, find-upsert_other, find-append_none}

-- Ids grow from `lo` on and stay below `hi`.
abbrev pub Ids : ℕ → ℕ → List Row → Type 0
Ids lo hi [] = lo ≤ hi
Ids lo hi (r ∷ rs) = (lo ≤ r.id) × Ids (suc r.id) hi rs

-- UNIQUE(source, source_key)
abbrev pub Unique : List Row → Type 0
Unique [] = Unit {0}
Unique (r ∷ rs) = (find (has_key r.source r.source_key) rs ≡ none) × Unique rs

pub record IsWellFormed (t : Table) : Type 0 where
  pub ordered : Ids 1 t.next_id t.rows
  pub unique : Unique t.rows

-- A statement that leaves the id and the key of each row alone.
pub record KeepsKey (f : Row → Row) : Type 0 where
  pub id : (r : Row) → (f r).id ≡ r.id
  pub source : (r : Row) → (f r).source ≡ r.source
  pub source_key : (r : Row) → (f r).source_key ≡ r.source_key

pub has_key-KeepsKey :
    {f : Row → Row} → KeepsKey f → (s k : Text) (r : Row) → has_key s k (f r) ≡ has_key s k r
has_key-KeepsKey w s k r = rw (w.source r, w.source_key r)

pub has_id-KeepsKey :
    {f : Row → Row} → KeepsKey f → (id : ℕ) (r : Row) → has_id id (f r) ≡ has_id id r
has_id-KeepsKey w id r = rw (w.id r)

pub Ids-weaken : (lo lo' hi : ℕ) (rs : List Row) → lo ≤ lo' → Ids lo' hi rs → Ids lo hi rs
Ids-weaken lo lo' hi [] h v = omega arith
Ids-weaken lo lo' hi (r ∷ rs) h v = (omega arith, v.1)

Ids-append :
    (lo hi : ℕ) (rs : List Row) (r : Row)
    → r.id ≡ hi
    → Ids lo hi rs
    → Ids lo (suc hi) (rs ++ r ∷ [])
Ids-append lo hi [] r e v = omega arith
Ids-append lo hi (x ∷ rs) r e v = (v.0, Ids-append (suc x.id) hi rs r e v.1)

Ids-update :
    (p : Row → Bool) {f : Row → Row} (w : KeepsKey f) (lo hi : ℕ) (rs : List Row)
    → Ids lo hi rs
    → Ids lo hi (update_where p f rs)
unfolding update_where
Ids-update p w lo hi [] v = v
Ids-update p {f} w lo hi (r ∷ rs) v = elim (Bool-cases (p r)) [
  | inl e ↦ rw (e, w.id r) (v.0, Ids-update p w (suc r.id) hi rs v.1)
  | inr e ↦ rw e (v.0, Ids-update p w (suc r.id) hi rs v.1)
]

Ids-delete :
    (p : Row → Bool) (lo hi : ℕ) (rs : List Row) → Ids lo hi rs → Ids lo hi (delete_where p rs)
unfolding delete_where
Ids-delete p lo hi [] v = v
Ids-delete p lo hi (r ∷ rs) v = elim (Bool-cases (p r)) [
  | inl e ↦ rw e (Ids-weaken lo (suc r.id) hi _ (omega arith) (Ids-delete p (suc r.id) hi rs v.1))
  | inr e ↦ rw e (v.0, Ids-delete p (suc r.id) hi rs v.1)
]

find-update_none :
    (p : Row → Bool) {f : Row → Row} (w : KeepsKey f) (s k : Text) (rs : List Row)
    → find (has_key s k) rs ≡ none
    → find (has_key s k) (update_where p f rs) ≡ none
unfolding find update_where
find-update_none p w s k [] e = refl
find-update_none p {f} w s k (r ∷ rs) e =
    ground (arith, has_key-KeepsKey w s k r, find-update_none p w s k rs)

Unique-update :
    (p : Row → Bool) {f : Row → Row} (w : KeepsKey f) (rs : List Row)
    → Unique rs
    → Unique (update_where p f rs)
unfolding update_where
Unique-update p w [] v = tt
Unique-update p {f} w (r ∷ rs) v = elim (Bool-cases (p r)) [
  | inl e ↦
      rw (e, w.source r, w.source_key r)
        (find-update_none p w r.source r.source_key rs v.0, Unique-update p w rs v.1)
  | inr e ↦ rw e (find-update_none p w r.source r.source_key rs v.0, Unique-update p w rs v.1)
]

find-delete_none :
    (q p : Row → Bool) (rs : List Row) → find q rs ≡ none → find q (delete_where p rs) ≡ none
unfolding find delete_where
find-delete_none q p [] e = refl
find-delete_none q p (r ∷ rs) e = ground (arith, find-delete_none q p rs)

Unique-delete : (p : Row → Bool) (rs : List Row) → Unique rs → Unique (delete_where p rs)
unfolding delete_where
Unique-delete p [] v = tt
Unique-delete p (r ∷ rs) v = elim (Bool-cases (p r)) [
  | inl e ↦ rw e (Unique-delete p rs v.1)
  | inr e ↦ rw e (find-delete_none _ p rs v.0, Unique-delete p rs v.1)
]

find_symmetric :
    (rs : List Row) (x r : Row)
    → find (has_key r.source r.source_key) (x ∷ rs) ≡ none
    → has_key x.source x.source_key r ≡ false
unfolding find
find_symmetric rs x r e = ground (
  arith,
  text_eq_iff r.source x.source,
  text_eq_iff r.source_key x.source_key,
  text_eq_iff x.source r.source,
  text_eq_iff x.source_key r.source_key,
)

Unique-append :
    (rs : List Row) (r : Row)
    → find (has_key r.source r.source_key) rs ≡ none
    → Unique rs
    → Unique (rs ++ r ∷ [])
unfolding find
Unique-append [] r e v = (refl, tt)
Unique-append (x ∷ rs) r e v = (
  rw (find-append_none (has_key x.source x.source_key) rs r v.0) (rw (find_symmetric rs x r e)),
  Unique-append rs r (ground arith) v.1,
)

pub update-IsWellFormed :
    (p : Row → Bool) {f : Row → Row}
    → KeepsKey f
    → {t : Table} → IsWellFormed t
    → IsWellFormed (update p f t)
update-IsWellFormed p w {t} v = record {
  ordered = Ids-update p w 1 t.next_id t.rows v.ordered;
  unique = Unique-update p w t.rows v.unique;
}

pub delete-IsWellFormed :
    (p : Row → Bool) {t : Table}
    → IsWellFormed t
    → IsWellFormed (record t { rows = delete_where p t.rows })
delete-IsWellFormed p {t} v = record {
  ordered = Ids-delete p 1 t.next_id t.rows v.ordered;
  unique = Unique-delete p t.rows v.unique;
}

-- A row as an INSERT writes it.
pub record IsFresh (s k : Text) (fresh : ℕ → Row) : Type 0 where
  pub id : (n : ℕ) → (fresh n).id ≡ n
  pub source : (n : ℕ) → (fresh n).source ≡ s
  pub source_key : (n : ℕ) → (fresh n).source_key ≡ k

pub IsFresh-has_key :
    {s k : Text} {fresh : ℕ → Row} → IsFresh s k fresh → (n : ℕ) → has_key s k (fresh n) ≡ true
IsFresh-has_key {s} {k} {fresh} w n = has_key_intro s k (fresh n) (w.source n) (w.source_key n)

-- An upsert is invisible under any other key.
pub upsert_other_key :
    (s k s' k' : Text) {fresh : ℕ → Row} {merge : Row → Row} (t : Table)
    → IsFresh s k fresh
    → KeepsKey merge
    → (text_eq s' s && text_eq k' k) ≡ false
    → find (has_key s' k') (upsert s k fresh merge t).rows ≡ find (has_key s' k') t.rows
upsert_other_key s k s' k' {fresh} {merge} t w m ne =
    find-upsert_other (has_key s' k') s k fresh merge t hidden apart (has_key-KeepsKey m s' k')
  where
    apart : (r : Row) → has_key s' k' r ≡ true → has_key s k r ≡ false
    apart r h = ground (
      arith,
      text_eq_iff r.source s,
      text_eq_iff r.source s',
      text_eq_iff r.source_key k,
      text_eq_iff r.source_key k',
      text_eq_iff s' s,
      text_eq_iff k' k,
    )

    hidden : has_key s' k' (fresh t.next_id) ≡ false
    hidden = elim (Bool-cases (has_key s' k' (fresh t.next_id))) [
      | inl h ↦ absurd (false≢true (sym (apart (fresh t.next_id) h) ∙ IsFresh-has_key w t.next_id))
      | inr h ↦ h
    ]

pub upsert-IsWellFormed :
    (s k : Text) {fresh : ℕ → Row} {merge : Row → Row}
    → IsFresh s k fresh
    → KeepsKey merge
    → {t : Table} → IsWellFormed t
    → IsWellFormed (upsert s k fresh merge t)
unfolding upsert
upsert-IsWellFormed s k {fresh} w m {t} v = elim (Option-cases (find (has_key s k) t.rows)) [
  | inl e ↦
      rw (e, upsert)
        (record {
          ordered = Ids-append 1 t.next_id t.rows (fresh t.next_id) (w.id t.next_id) v.ordered;
          unique =
              Unique-append t.rows (fresh t.next_id)
                (rw (w.source t.next_id, w.source_key t.next_id) e) v.unique;
        })
  | inr (r, e) ↦ rw (e, upsert) (update-IsWellFormed (has_key s k) m v)
]

pub empty_table-IsWellFormed : IsWellFormed empty_table
unfolding empty_table
empty_table-IsWellFormed = record { ordered = omega arith; unique = tt }
