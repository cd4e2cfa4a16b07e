-- ===== src/Settings/Store/Reading.antt =====
-- GetAll of internal/settings/settings.go: what it reads after a write.
use plex_mirror.Base.{
  ◌≡◌, refl, sym, ◌∙◌, inl, inr, true, false, Option, none, some, List, [], ◌∷◌, if◌then◌else◌,
  Text, text_eq, text_eq_iff, text_eq_refl, Bool-cases,
}
use plex_mirror.Base.Base64.{Bytes}
use plex_mirror.Settings.Crypto.{Cipher}
use plex_mirror.Settings.Store.{
  Setting, Map, no_entries, assign, is_reserved, lookup, put, visible, add_row, read_rows,
}
use plex_mirror.Settings.Store.Rows.{IsUnique, lookup-put, put-IsUnique}

module _ (cipher : Cipher) (key : Bytes) where
  -- What GetAll shows of the row of a key.
  abbrev pub shown : Text → Option Setting → Option Text → Option Text
  shown n none before = before
  shown n (some r) before = if is_reserved n then before else some (visible cipher key r)

  add_row_self :
      (out : Map) (r : Setting) (n : Text)
      → text_eq r.key n ≡ true
      → add_row cipher key out r n ≡ shown n (some r) (out n)
  unfolding add_row
  add_row_self out r n e =
      rw (sym ((text_eq_iff r.key n).0 e)) (elim (Bool-cases (is_reserved r.key)) [
        | inl k ↦ rw k refl
        | inr k ↦ rw (k, text_eq_refl r.key) refl
      ])

  add_row-other :
      (out : Map) (r : Setting) (n : Text)
      → text_eq r.key n ≡ false
      → add_row cipher key out r n ≡ out n
  unfolding add_row
  add_row-other out r n e = elim (Bool-cases (is_reserved r.key)) [
    | inl k ↦ rw k refl
    | inr k ↦ rw (k, e) refl
  ]

  pub read_rows-lookup :
      (rows : List Setting) (out : Map) (n : Text)
      → IsUnique rows
      → read_rows cipher key out rows n ≡ shown n (lookup n rows) (out n)
  unfolding read_rows lookup
  read_rows-lookup [] out n u = refl
  read_rows-lookup (r ∷ rs) out n u = elim (Bool-cases (text_eq r.key n)) [
    | inl e ↦ rw e (
        read_rows-lookup rs (add_row cipher key out r) n u.1
        ∙ rw (rw ((text_eq_iff r.key n).0 e) at u.0) (add_row_self out r n e))
    | inr e ↦
        rw e
          (read_rows-lookup rs (add_row cipher key out r) n u.1 ∙ rw (add_row-other out r n e) refl)
  ]

  -- What GetAll reads of one key.
  abbrev pub reads : List Setting → Text → Option Text
  reads rows n = read_rows cipher key no_entries rows n

  -- Writing a row that shows a value is an assignment to the map that GetAll reads.
  pub reads-put :
      (rows : List Setting) (s : Setting) (v n : Text)
      → IsUnique rows
      → is_reserved s.key ≡ false
      → visible cipher key s ≡ v
      → reads (put s rows) n ≡ assign (reads rows) s.key v n
  reads-put rows s v n u k e =
      read_rows-lookup (put s rows) no_entries n (put-IsUnique s rows u)
      ∙ rw (lookup-put n s rows) (elim (Bool-cases (text_eq s.key n)) [
        | inl f ↦ rw f (rw (sym ((text_eq_iff s.key n).0 f)) (rw (k, e) refl))
        | inr f ↦ rw f (sym (read_rows-lookup rows no_entries n u))
      ])
