-- ===== src/Download/Delivered.antt =====
-- fetchOnce of internal/download/engine.go: the attempts that end a download, and the ones that
-- Download makes again.
use plex_mirror.Base.{
  ℕ, ◌≤◌, ◌≡◌, ◌⊎◌, refl, inl, inr, Bool, true, false, not, ◌&&◌, none, some, List, [], ◌∷◌, arith,
  if◌then◌else◌, ltb, leb, ◌==◌, is_some, is_empty, Text, Bool-cases, Option-cases,
}
use plex_mirror.Items.{
  Transient, open_partial, truncate_partial, transport, http_retryable, sync_partial, read_body,
  context_done, write_partial,
}
use plex_mirror.Download.Fetch.{
  Ending, more, eof, broken, Read, Response, Attempt, Outcome, done, transiently, Transfer, copy,
  advance, end_read, receive, restart, opened, cleared, respond, fetch_once, mismatch,
}

-- No cancellation and no failing write, up to the end of the body.
abbrev pub IsRead : List Read → Type 0
IsRead [] = ⊥
IsRead (r ∷ rs) =
    (r.canceled ≡ false)
    × (r.write_fails ≡ none)
    × ((r.ending ≡ eof) ⊎ ((r.ending ≡ more) × IsRead rs))

-- 200, or 206 with no other total than the expected one.
abbrev pub HasBody : ℕ → Response → Type 0
HasBody expected r =
    (r.status_code ≡ 200) ⊎ ((r.status_code ≡ 206) × (mismatch expected r.content_range ≡ none))

-- A response whose body arrives whole, with no call on the partial file that fails.
abbrev pub Delivers : ℕ → Attempt → Type 0
Delivers expected a =
    (a.builds ≡ true)
    × (a.remove_fails ≡ false)
    × (a.open_fails ≡ false)
    × (a.sync_fails ≡ false)
    × ((r : Response) × (a.response ≡ some r) × HasBody expected r × IsRead r.body)

-- No response, a body that may break off, or a status of the server's own failures.
abbrev pub IsRetryable : ℕ → Attempt → Type 0
IsRetryable expected a =
    (a.builds ≡ true)
    × ((r : Response) → a.response ≡ some r → HasBody expected r ⊎ (500 ≤ r.status_code))

-- Done, or to be tried again.
abbrev pub GoesOn : Outcome → Type 0
GoesOn outcome = (outcome ≡ done) ⊎ ((e : Transient) × (outcome ≡ transiently e))

module _ (id : ℕ) (path : Text) (now : ℕ) where
  no_write_fails :
      (b : Bool) (x y : Transfer × Outcome)
      → y.1 ≡ done
      → (if not b && false then x else y).1 ≡ done
  no_write_fails true x y h = h
  no_write_fails false x y h = h

  copy-done : (rs : List Read) (t : Transfer) → IsRead rs → (copy id path now false rs t).1 ≡ done
  unfolding copy end_read
  copy-done [] t h = absurd h
  copy-done (r ∷ rs) t (runs, writes, inl e) =
      rw (runs, writes) (no_write_fails (is_empty r.chunk) _ _ (rw (e, end_read)))
  copy-done (r ∷ rs) t (runs, writes, inr (e, rest)) =
      rw (runs, writes)
        (no_write_fails (is_empty r.chunk) _ _
          (rw (e, end_read) (copy-done rs (advance id path now r t) rest)))

  receive-done :
      (a : Attempt) (body : List Read) (t : Transfer)
      → a.open_fails ≡ false
      → a.sync_fails ≡ false
      → IsRead body
      → (receive id path now a body t).1 ≡ done
  unfolding receive
  receive-done a body t opens syncs h = rw (opens, syncs) (copy-done body (opened id path now t) h)

  restart-done :
      (a : Attempt) (body : List Read) (t : Transfer)
      → a.remove_fails ≡ false
      → a.open_fails ≡ false
      → a.sync_fails ≡ false
      → IsRead body
      → (restart id path now a body t).1 ≡ done
  unfolding restart
  restart-done a body t removes opens syncs h = elim (Bool-cases (ltb 0 t.start_at)) [
    | inl p ↦ rw (p, removes) (receive-done a body (cleared id path now t) opens syncs h)
    | inr p ↦ rw p (receive-done a body t opens syncs h)
  ]

  end_read-GoesOn :
      (sync_fails : Bool) (next : Transfer) (after : Transfer × Outcome) (x : Ending)
      → GoesOn after.1
      → GoesOn (end_read id path now sync_fails next after x).1
  unfolding end_read
  end_read-GoesOn sync_fails next after more h = h
  end_read-GoesOn true next after eof h = inr (sync_partial, refl)
  end_read-GoesOn false next after eof h = inl refl
  end_read-GoesOn sync_fails next after broken h = inr (read_body, refl)

  copy-GoesOn :
      (sync_fails : Bool) (rs : List Read) (t : Transfer)
      → GoesOn (copy id path now sync_fails rs t).1
  unfolding copy
  copy-GoesOn sync_fails [] t = inr (read_body, refl)
  copy-GoesOn sync_fails (r ∷ rs) t = elim (Bool-cases r.canceled) [
    | inl q ↦ rw q (inr (context_done, refl))
    | inr q ↦ elim (Bool-cases (not (is_empty r.chunk) && is_some r.write_fails)) [
      | inl f ↦ rw (q, f) (inr (write_partial, refl))
      | inr f ↦
          rw (q, f)
            (end_read-GoesOn sync_fails (advance id path now r t) _ r.ending
              (copy-GoesOn sync_fails rs (advance id path now r t)))
    ]
  ]

  receive-GoesOn :
      (a : Attempt) (body : List Read) (t : Transfer) → GoesOn (receive id path now a body t).1
  unfolding receive
  receive-GoesOn a body t = elim (Bool-cases a.open_fails) [
    | inl q ↦ rw q (inr (open_partial, refl))
    | inr q ↦ rw q (copy-GoesOn a.sync_fails body (opened id path now t))
  ]

  restart-GoesOn :
      (a : Attempt) (body : List Read) (t : Transfer) → GoesOn (restart id path now a body t).1
  unfolding restart
  restart-GoesOn a body t = elim (Bool-cases (ltb 0 t.start_at)) [
    | inl p ↦ elim (Bool-cases a.remove_fails) [
      | inl q ↦ rw (p, q) (inr (truncate_partial, refl))
      | inr q ↦ rw (p, q) (receive-GoesOn a body (cleared id path now t))
    ]
    | inr p ↦ rw p (receive-GoesOn a body t)
  ]

  respond-done :
      (a : Attempt) (r : Response) (expected : ℕ) (t : Transfer)
      → a.remove_fails ≡ false
      → a.open_fails ≡ false
      → a.sync_fails ≡ false
      → HasBody expected r
      → IsRead r.body
      → (respond id path now a r expected t).1 ≡ done
  unfolding respond
  respond-done a r expected t removes opens syncs (inl s) h =
      rw s (restart-done a r.body t removes opens syncs h)
  respond-done a r expected t removes opens syncs (inr (s, m)) h =
      rw s (rw m (receive-done a r.body t opens syncs h))

  respond-GoesOn :
      (a : Attempt) (r : Response) (expected : ℕ) (t : Transfer)
      → HasBody expected r ⊎ (500 ≤ r.status_code)
      → GoesOn (respond id path now a r expected t).1
  unfolding respond
  respond-GoesOn a r expected t (inl (inl s)) = rw s (restart-GoesOn a r.body t)
  respond-GoesOn a r expected t (inl (inr (s, m))) = rw s (rw m (receive-GoesOn a r.body t))
  respond-GoesOn a r expected t (inr h) =
      let p : (r.status_code == 200) ≡ false = ground arith in
      let q : (r.status_code == 206) ≡ false = ground arith in
      let s : (r.status_code == 416) ≡ false = ground arith in
      let k : (leb 400 r.status_code && ltb r.status_code 500) ≡ false = ground arith in
      rw (p, q, s, k) (inr (http_retryable r.status_code, refl))

pub fetch_once-done :
    (a : Attempt) (id : ℕ) (path : Text) (expected : ℕ) (t : Transfer)
    → Delivers expected a
    → (fetch_once a id path expected t).1 ≡ done
unfolding fetch_once
fetch_once-done a id path expected t (b, removes, opens, syncs, (r, e, body, h)) =
    rw b (rw e (respond-done id path a.now a r expected t removes opens syncs body h))

pub fetch_once-GoesOn :
    (a : Attempt) (id : ℕ) (path : Text) (expected : ℕ) (t : Transfer)
    → IsRetryable expected a
    → GoesOn (fetch_once a id path expected t).1
unfolding fetch_once
fetch_once-GoesOn a id path expected t (b, h) = elim (Option-cases a.response) [
  | inl e ↦ rw b (rw e (inr (transport, refl)))
  | inr (r, e) ↦ rw b (rw e (respond-GoesOn id path a.now a r expected t (h r e)))
]
