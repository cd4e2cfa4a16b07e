-- ===== src/Settings/Store/Rows.antt =====
-- The `settings` table of internal/db/migrations: its key is unique, and what a lookup finds after
-- a statement.
use plex_mirror.Base.{
  All, true, Bool-cases, inl, inr, ◌≡◌, refl, sym, inl, inr, none, some, List, [], ◌∷◌, arith,
  if◌then◌else◌, Text, text_eq, text_eq_iff, Bool-cases,
}
use plex_mirror.Settings.Store.{Setting, lookup, put, is_secret_key}

-- PRIMARY KEY (key)
abbrev pub IsUnique : List Setting → Type 0
IsUnique [] = Unit
IsUnique (r ∷ rs) = (lookup r.key rs ≡ none) × IsUnique rs

pub lookup-put :
    (n : Text) (s : Setting) (rows : List Setting)
    → lookup n (put s rows) ≡ (if text_eq s.key n then some s else lookup n rows)
unfolding lookup put
lookup-put n s [] = refl
lookup-put n s (r ∷ rs) =
    ground
      (arith, text_eq_iff r.key s.key, text_eq_iff r.key n, text_eq_iff s.key n, lookup-put n s rs)

pub put-IsUnique : (s : Setting) (rows : List Setting) → IsUnique rows → IsUnique (put s rows)
unfolding put lookup
put-IsUnique s [] u = (refl, tt)
put-IsUnique s (r ∷ rs) u = elim (Bool-cases (text_eq r.key s.key)) [
  | inl e ↦ rw e (rw (sym ((text_eq_iff r.key s.key).0 e)) u.0, u.1)
  | inr e ↦ rw e (
    ground (arith, u.0, text_eq_iff s.key r.key, text_eq_iff r.key s.key, lookup-put r.key s rs),
    put-IsUnique s rs u.1,
  )
]

-- Only the rows of credentials are marked as secret.
abbrev pub IsMarked : Setting → Type 0
IsMarked r = r.is_secret ≡ true → is_secret_key r.key ≡ true

pub put-All {κ} :
    (P : Setting → Type κ) (s : Setting) (rows : List Setting)
    → P s
    → All P rows
    → All P (put s rows)
unfolding put
put-All P s [] h k = (h, tt)
put-All P s (r ∷ rs) h k = elim (Bool-cases (text_eq r.key s.key)) [
  | inl e ↦ rw e (h, k.1)
  | inr e ↦ rw e (k.0, put-All P s rs h k.1)
]

-- The row of a credential is marked, as every write of the store marks it.
abbrev pub IsFlagged : Setting → Type 0
IsFlagged r = is_secret_key r.key ≡ true → r.is_secret ≡ true

abbrev pub IsWellFormed : List Setting → Type 0
IsWellFormed rows = IsUnique rows × All IsMarked rows

pub put-IsWellFormed :
    (s : Setting) (rows : List Setting) → IsMarked s → IsWellFormed rows → IsWellFormed (put s rows)
put-IsWellFormed s rows m (u, k) = (put-IsUnique s rows u, put-All IsMarked s rows m k)
