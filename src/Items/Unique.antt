-- ===== src/Items/Unique.antt =====
-- UNIQUE(source, source_key): a key names one row of the `items` table.
use mathlib.Core.Bool.{false≢true}
use plex_mirror.Base.{
  ◌≡◌, sym, ◌∙◌, true, false, some, none, List, [], ◌∷◌, arith, Text, All, All-map, Bool-cases, inl,
  inr,
}
use plex_mirror.Items.{Row, has_key, find}
use plex_mirror.Items.Lookup.{has_key_lem}
use plex_mirror.Items.Order.{Unique}

abbrev IsOnly : Text → Text → Row → Row → Type 0
IsOnly s k r x = has_key s k x ≡ true → x ≡ r

pub hidden_rest :
    (s k : Text) (rs : List Row)
    → find (has_key s k) rs ≡ none
    → All (λ x. has_key s k x ≡ false) rs
unfolding find
hidden_rest s k [] e = tt
hidden_rest s k (x ∷ rs) e = (ground arith, hidden_rest s k rs (ground arith))

-- A key names one row.
pub Unique-row :
    (s k : Text) (rs : List Row) (r : Row)
    → Unique rs
    → find (has_key s k) rs ≡ some r
    → All (λ x. has_key s k x ≡ true → x ≡ r) rs
unfolding find
Unique-row s k [] r v e = tt
Unique-row s k (x ∷ rs) r v e = elim (Bool-cases (has_key s k x)) [
  | inl h ↦
      let (p, q) = has_key_lem s k x h in
      let head : x ≡ r = ground arith in
      (
        λ _. head,
        All-map (λ y. has_key x.source x.source_key y ≡ false) (IsOnly s k r)
            (λ y n m. absurd (false≢true (sym n ∙ rw (p, q) m))) rs
            (hidden_rest x.source x.source_key rs v.0),
      )
  | inr h ↦ (λ m. absurd (false≢true (sym h ∙ m)), Unique-row s k rs r v.1 (rw h at e))
]
