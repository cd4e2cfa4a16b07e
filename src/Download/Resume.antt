-- ===== src/Download/Resume.antt =====
-- Resuming a download: what the partial file holds after each attempt of fetchOnce.
use mathlib.Core.List.{append-nil}
use plex_mirror.Base.{
  ℕ, ◌≤◌, ◌≡◌, refl, sym, ap, ◌∙◌, inl, inr, not, ◌&&◌, none, some, List, [], ◌∷◌, ◌++◌, arith,
  if◌then◌else◌, ltb, leb, ◌==◌, Text, length, drop, length-append, Bool-cases, Option-cases,
  ==_iff, text_eq_refl,
}
use plex_mirror.Files.{Content, content_at, erase, content_at-put, content_at-erase}
use plex_mirror.Items.{
  open_partial, truncate_partial, no_partial_file, partial_size, content_range_total, http_status,
  http_retryable, build_request, transport,
}
use plex_mirror.Download.Fetch.{
  Read, Response, Attempt, Outcome, done, permanently, transiently, Transfer, copy, opened, cleared,
  receive, restart, check_whole, respond, fetch_once, mismatch,
}
use plex_mirror.Download.Honest.{Sends, IsHonest, held, IsResumable, IsSound}
use plex_mirror.Download.Copying.{copy-IsCopied, IsCopied-IsSound}

module _ (file : Content) (id : ℕ) (path : Text) (now : ℕ) where
  idle-IsSound :
      (t : Transfer) (outcome : Outcome)
      → IsResumable file path t
      → (outcome ≡ done → content_at path t.disk.files ≡ some file)
      → IsSound file path (t, outcome)
  idle-IsSound t outcome (part, size) whole = (part, λ q. size ∙ rw q, whole)

  receive-IsSound :
      (a : Attempt) (body : List Read) (t : Transfer) (w : Content)
      → IsResumable file path t
      → (if t.start_at == 0 then [] else held path t) ++ w ≡ file
      → Sends w body
      → IsSound file path (receive id path now a body t)
  unfolding receive
  receive-IsSound a body t w v e s = elim (Bool-cases a.open_fails) [
    | inl q ↦ rw q (idle-IsSound t (transiently open_partial) v (λ p. cc))
    | inr q ↦ rw q (
        IsCopied-IsSound file id path now
          (copy id path now a.sync_fails body (opened id path now t))
          (copy-IsCopied file id path now a.sync_fails body (opened id path now t)
            (if t.start_at == 0 then [] else held path t) w
            (content_at-put path path _ t.disk.files ∙ rw (text_eq_refl path)) e s))
  ]

  no_bytes : (t : Transfer) → t.start_at ≡ length (held path t) → t.start_at ≡ 0 → held path t ≡ []
  no_bytes t h z = none_left (held path t) (sym h ∙ z)
    where
      none_left : (xs : Content) → length xs ≡ 0 → xs ≡ []
      none_left [] e = refl
      none_left (x ∷ xs) e = absurd (omega arith)

  restart-IsSound :
      (a : Attempt) (body : List Read) (t : Transfer)
      → IsResumable file path t
      → Sends file body
      → IsSound file path (restart id path now a body t)
  unfolding restart
  restart-IsSound a body t v s = elim (Bool-cases (ltb 0 t.start_at)) [
    | inl p ↦ elim (Bool-cases a.remove_fails) [
      | inl q ↦ rw (p, q) (idle-IsSound t (transiently truncate_partial) v (λ k. cc))
      | inr q ↦ rw (p, q) (receive-IsSound a body (cleared id path now t) file emptied refl s)
    ]
    | inr p ↦ rw p (receive-IsSound a body t file v (ground arith) s)
  ]
    where
      gone : content_at path (erase path t.disk.files) ≡ none
      gone = content_at-erase path path t.disk.files ∙ rw (text_eq_refl path)

      emptied : IsResumable file path (cleared id path now t)
      emptied = ((file, rw gone), rw gone)

  drop-prefix : (xs ys : Content) → drop (length xs) (xs ++ ys) ≡ ys
  drop-prefix [] ys = refl
  drop-prefix (x ∷ xs) ys = drop-prefix xs ys

  resumed :
      (t : Transfer)
      → IsResumable file path t
      → (if t.start_at == 0 then [] else held path t) ++ drop t.start_at file ≡ file
  resumed t ((rest, e), size) = elim (Bool-cases (t.start_at == 0)) [
    | inl p ↦ rw p (ap (λ n. drop n file) ((==_iff t.start_at 0).0 p))
    | inr p ↦ rw p (
        ap (λ xs. held path t ++ xs)
          (ap (λ n. drop n file) size
            ∙ ap (drop (length (held path t))) (sym e)
            ∙ drop-prefix (held path t) rest)
        ∙ e)
  ]

  nothing_left : (xs ys : Content) → length (xs ++ ys) ≤ length xs → xs ≡ xs ++ ys
  nothing_left xs [] h = sym (append-nil xs)
  nothing_left xs (y ∷ ys) h = absurd (omega (arith, length-append xs (y ∷ ys)))

  check_whole-IsSound :
      (expected : ℕ) (t : Transfer)
      → IsResumable file path t
      → length file ≤ t.start_at
      → IsSound file path (check_whole id path now expected t)
  unfolding check_whole
  check_whole-IsSound expected t v h = elim (Option-cases (content_at path t.disk.files)) [
    | inl e ↦ rw (e, check_whole) (idle-IsSound t (permanently no_partial_file) v (λ k. cc))
    | inr (c, e) ↦ elim (Bool-cases (ltb 0 expected && not (length c == expected))) [
      | inl q ↦
          rw (e, check_whole)
            (rw q (idle-IsSound t (permanently (partial_size (length c) expected)) v (λ k. cc)))
      | inr q ↦
          rw (e, check_whole) (rw q (idle-IsSound t done v (λ k. e ∙ ap some (complete c e v))))
    ]
  ]
    where
      complete :
          (c : Content) → content_at path t.disk.files ≡ some c → IsResumable file path t → c ≡ file
      complete c e ((rest, p), size) =
          let q : c ++ rest ≡ file = rw e at p in
          let n : t.start_at ≡ length c = rw e at size in
          nothing_left c rest (omega (arith, h, n, ap length q)) ∙ q

  respond-IsSound :
      (a : Attempt) (r : Response) (expected : ℕ) (t : Transfer)
      → IsResumable file path t
      → (r.status_code ≡ 200 → Sends file r.body)
      → (r.status_code ≡ 206 → Sends (drop t.start_at file) r.body)
      → (r.status_code ≡ 416 → length file ≤ t.start_at)
      → IsSound file path (respond id path now a r expected t)
  unfolding respond
  respond-IsSound a r expected t v h200 h206 h416 = elim (Bool-cases (r.status_code == 200)) [
    | inl p ↦ rw p (restart-IsSound a r.body t v (h200 (ground arith)))
    | inr p ↦ elim (Bool-cases (r.status_code == 206)) [
      | inl q ↦ elim (Option-cases (mismatch expected r.content_range)) [
        | inl m ↦
            rw (p, q)
              (rw m (
                receive-IsSound a r.body t (drop t.start_at file) v (resumed t v)
                  (h206 (ground arith))))
        | inr (total, m) ↦
            rw (p, q)
              (rw m (idle-IsSound t (permanently (content_range_total total expected)) v (λ k. cc)))
      ]
      | inr q ↦ elim (Bool-cases (r.status_code == 416)) [
        | inl s ↦ rw (p, q, s) (check_whole-IsSound expected t v (h416 (ground arith)))
        | inr s ↦ elim (Bool-cases (leb 400 r.status_code && ltb r.status_code 500)) [
          | inl k ↦
              rw (p, q, s, k) (idle-IsSound t (permanently (http_status r.status_code)) v (λ x. cc))
          | inr k ↦
              rw (p, q, s, k)
                (idle-IsSound t (transiently (http_retryable r.status_code)) v (λ x. cc))
        ]
      ]
    ]
  ]

-- One attempt against an honest server keeps a beginning of the file on disk, and where it is done
-- the whole file is there.
pub fetch_once-IsSound :
    (file : Content) (a : Attempt) (id : ℕ) (path : Text) (expected : ℕ) (t : Transfer)
    → IsHonest file t.start_at a
    → IsResumable file path t
    → IsSound file path (fetch_once a id path expected t)
unfolding fetch_once
fetch_once-IsSound file a id path expected t honest v = elim (Bool-cases a.builds) [
  | inr b ↦ rw b (idle-IsSound file id path a.now t (permanently build_request) v (λ k. cc))
  | inl b ↦ elim (Option-cases a.response) [
    | inl e ↦ rw b (rw e (idle-IsSound file id path a.now t (transiently transport) v (λ k. cc)))
    | inr (r, e) ↦
        let (h200, h206, h416) = honest r e in
        rw b (rw e (respond-IsSound file id path a.now a r expected t v h200 h206 h416))
  ]
]
