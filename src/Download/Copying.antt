-- ===== src/Download/Copying.antt =====
-- The copy loop of fetchOnce in internal/download/engine.go.
use mathlib.Core.List.{append-nil, append_assoc}
use mathlib.Core.Bool.{false≢true}
use mathlib.Core.Option.{none-ne-some}
use plex_mirror.Base.{
  ℕ, ◌≡◌, refl, sym, ap, ◌∙◌, inl, inr, Bool, true, not, ◌&&◌, some, List, [], ◌∷◌, ◌++◌, or_else,
  is_some, Text, is_empty, take, drop, take-drop, Bool-cases, text_eq_refl,
}
use plex_mirror.Files.{Content, content_at, content_at-put}
use plex_mirror.Items.{write_partial}
use plex_mirror.Download.Fetch.{
  Ending, more, eof, broken, Read, Outcome, done, transiently, Transfer, append, copy, advance,
  end_read,
}
use plex_mirror.Download.Honest.{Sends, held, IsSound}

module _ (file : Content) (id : ℕ) (path : Text) (now : ℕ) where
  pub held-append :
      (bytes : Content) (t : Transfer)
      → content_at path (append id path now bytes t).disk.files ≡ some (held path t ++ bytes)
  held-append bytes t = rw (content_at-put path path _ t.disk.files) (rw (text_eq_refl path))

  -- The copy loop leaves a file that begins `file`, and that is `file` where it is done.
  abbrev pub IsCopied : Transfer × Outcome → Type 0
  IsCopied (t, outcome) =
      (c : Content) × (content_at path t.disk.files ≡ some c)
      × ((rest : Content) × (c ++ rest ≡ file))
      × (outcome ≡ done → c ≡ file)

  advance-content :
      (r : Read) (t : Transfer) (c : Content)
      → content_at path t.disk.files ≡ some c
      → content_at path (advance id path now r t).disk.files ≡ some (c ++ r.chunk)
  unfolding advance
  advance-content r t c h = elim (Bool-cases (is_empty r.chunk)) [
    | inl e ↦ rw (e, empty r.chunk e) (h ∙ ap some (sym (append-nil c)))
    | inr e ↦ elim (Bool-cases r.flush_due) [
      | inl f ↦ rw (e, f) (held-append r.chunk t ∙ rw h)
      | inr f ↦ rw (e, f) (held-append r.chunk t ∙ rw h)
    ]
  ]
    where
      empty : (xs : Content) → is_empty xs ≡ true → xs ≡ []
      empty [] e = refl
      empty (x ∷ xs) e = absurd (false≢true e)

  end_read-IsCopied :
      (sync_fails : Bool) (next : Transfer) (after : Transfer × Outcome) (x : Ending)
      (c rest : Content)
      → content_at path next.disk.files ≡ some c
      → c ++ rest ≡ file
      → (x ≡ eof → rest ≡ [])
      → IsCopied after
      → IsCopied (end_read id path now sync_fails next after x)
  unfolding end_read
  end_read-IsCopied sync_fails next after more c rest h e over k = k
  end_read-IsCopied sync_fails next after eof c rest h e over k =
      (c, h, (rest, e), λ q. sym (append-nil c) ∙ ap (λ xs. c ++ xs) (sym (over refl)) ∙ e)
  end_read-IsCopied sync_fails next after broken c rest h e over k = (c, h, (rest, e), λ q. cc)

  pub copy-IsCopied :
      (sync_fails : Bool) (rs : List Read) (t : Transfer) (c w : Content)
      → content_at path t.disk.files ≡ some c
      → c ++ w ≡ file
      → Sends w rs
      → IsCopied (copy id path now sync_fails rs t)
  unfolding copy
  copy-IsCopied sync_fails [] t c w h e s = (c, h, (w, e), λ q. cc)
  copy-IsCopied sync_fails (r ∷ rs) t c w h e (rest, split, over, sends) =
      elim (Bool-cases r.canceled) [
        | inl q ↦ rw q (c, h, (w, e), λ p. cc)
        | inr q ↦ elim (Bool-cases (not (is_empty r.chunk) && is_some r.write_fails)) [
          | inl f ↦ rw (q, f) (cut (or_else 0 r.write_fails))
          | inr f ↦
              rw (q, f)
                (end_read-IsCopied sync_fails (advance id path now r t) _ r.ending (c ++ r.chunk)
                  rest next whole over
                  (copy-IsCopied sync_fails rs (advance id path now r t) (c ++ r.chunk) rest next
                    whole sends))
        ]
      ]
    where
      whole : (c ++ r.chunk) ++ rest ≡ file
      whole = append_assoc c r.chunk rest ∙ ap (λ xs. c ++ xs) split ∙ e

      next : content_at path (advance id path now r t).disk.files ≡ some (c ++ r.chunk)
      next = advance-content r t c h

      cut : (k : ℕ) → IsCopied (append id path now (take k r.chunk) t, transiently write_partial)
      cut k = (
        c ++ take k r.chunk,
        held-append (take k r.chunk) t ∙ rw h,
        (
          drop k r.chunk ++ rest,
          append_assoc c (take k r.chunk) (drop k r.chunk ++ rest)
              ∙ ap (λ xs. c ++ xs)
                  (sym (append_assoc (take k r.chunk) (drop k r.chunk) rest)
                    ∙ ap (λ xs. xs ++ rest) (take-drop k r.chunk)
                    ∙ split)
              ∙ e,
        ),
        λ p. cc,
      )

  pub IsCopied-IsSound : (r : Transfer × Outcome) → IsCopied r → IsSound file path r
  IsCopied-IsSound (t, outcome) (c, h, (rest, e), whole) =
      ((rest, rw h e), λ q. absurd (none-ne-some _ (sym q ∙ h)), λ q. h ∙ ap some (whole q))
