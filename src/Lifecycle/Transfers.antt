-- ===== src/Lifecycle/Transfers.antt =====
-- Download runs statements of the step relation only.
use plex_mirror.Base.{
  ℕ, inl, inr, Bool, not, ◌&&◌, is_some, List, [], ◌∷◌, Bool-cases, Option-cases, Text, is_empty,
  length, ltb, leb, ◌==◌,
}
use plex_mirror.Files.{content_at}
use plex_mirror.Download.Fetch.{
  Read, Ending, more, eof, broken, Response, Attempt, Outcome, Transfer, advance, end_read, copy,
  opened, receive, cleared, restart, check_whole, respond, fetch_once, mismatch,
}
use plex_mirror.Lifecycle.{IsReachable, next, flushes}

-- The table of a transfer.
abbrev pub Reaches : Transfer × Outcome → Type 0
Reaches r = IsReachable r.0.disk.table

module _ (id : ℕ) (path : Text) (now : ℕ) where
  advance-Reaches :
      (r : Read) (t : Transfer)
      → IsReachable t.disk.table
      → IsReachable (advance id path now r t).disk.table
  unfolding advance
  advance-Reaches r t v = elim (Bool-cases (is_empty r.chunk)) [
    | inl e ↦ rw e v
    | inr e ↦ elim (Bool-cases r.flush_due) [
      | inl f ↦ rw (e, f) (next v (flushes id _ now))
      | inr f ↦ rw (e, f) v
    ]
  ]

  end_read-Reaches :
      (sync_fails : Bool) (t : Transfer) (rest : Transfer × Outcome) (x : Ending)
      → IsReachable t.disk.table
      → Reaches rest
      → Reaches (end_read id path now sync_fails t rest x)
  unfolding end_read
  end_read-Reaches sync_fails t rest more v k = k
  end_read-Reaches sync_fails t rest eof v k = next v (flushes id t.start_at now)
  end_read-Reaches sync_fails t rest broken v k = next v (flushes id t.start_at now)

  copy-Reaches :
      (sync_fails : Bool) (rs : List Read) (t : Transfer)
      → IsReachable t.disk.table
      → Reaches (copy id path now sync_fails rs t)
  unfolding copy
  copy-Reaches sync_fails [] t v = next v (flushes id t.start_at now)
  copy-Reaches sync_fails (r ∷ rs) t v = elim (Bool-cases r.canceled) [
    | inl q ↦ rw q (next v (flushes id t.start_at now))
    | inr q ↦ elim (Bool-cases (not (is_empty r.chunk) && is_some r.write_fails)) [
      | inl f ↦ rw (q, f) v
      | inr f ↦
          let moved = advance-Reaches r t v in
          rw (q, f)
            (end_read-Reaches sync_fails (advance id path now r t) _ r.ending moved
              (copy-Reaches sync_fails rs (advance id path now r t) moved))
    ]
  ]

  receive-Reaches :
      (a : Attempt) (body : List Read) (t : Transfer)
      → IsReachable t.disk.table
      → Reaches (receive id path now a body t)
  unfolding receive
  receive-Reaches a body t v = elim (Bool-cases a.open_fails) [
    | inl q ↦ rw q v
    | inr q ↦ rw q (copy-Reaches a.sync_fails body (opened id path now t) v)
  ]

  restart-Reaches :
      (a : Attempt) (body : List Read) (t : Transfer)
      → IsReachable t.disk.table
      → Reaches (restart id path now a body t)
  unfolding restart
  restart-Reaches a body t v = elim (Bool-cases (ltb 0 t.start_at)) [
    | inl p ↦ elim (Bool-cases a.remove_fails) [
      | inl q ↦ rw (p, q) v
      | inr q ↦ rw (p, q) (receive-Reaches a body (cleared id path now t) v)
    ]
    | inr p ↦ rw p (receive-Reaches a body t v)
  ]

  check_whole-Reaches :
      (expected : ℕ) (t : Transfer)
      → IsReachable t.disk.table
      → Reaches (check_whole id path now expected t)
  unfolding check_whole
  check_whole-Reaches expected t v = elim (Option-cases (content_at path t.disk.files)) [
    | inl e ↦ rw (e, check_whole) v
    | inr (c, e) ↦ elim (Bool-cases (ltb 0 expected && not (length c == expected))) [
      | inl q ↦ rw (e, check_whole) (rw q v)
      | inr q ↦ rw (e, check_whole) (rw q v)
    ]
  ]

  respond-Reaches :
      (a : Attempt) (r : Response) (expected : ℕ) (t : Transfer)
      → IsReachable t.disk.table
      → Reaches (respond id path now a r expected t)
  unfolding respond
  respond-Reaches a r expected t v = elim (Bool-cases (r.status_code == 200)) [
    | inl p ↦ rw p (restart-Reaches a r.body t v)
    | inr p ↦ elim (Bool-cases (r.status_code == 206)) [
      | inl q ↦ elim (Option-cases (mismatch expected r.content_range)) [
        | inl m ↦ rw (p, q) (rw m (receive-Reaches a r.body t v))
        | inr (total, m) ↦ rw (p, q) (rw m v)
      ]
      | inr q ↦ elim (Bool-cases (r.status_code == 416)) [
        | inl s ↦ rw (p, q, s) (check_whole-Reaches expected t v)
        | inr s ↦ elim (Bool-cases (leb 400 r.status_code && ltb r.status_code 500)) [
          | inl k ↦ rw (p, q, s, k) v
          | inr k ↦ rw (p, q, s, k) v
        ]
      ]
    ]
  ]

pub fetch_once-Reaches :
    (a : Attempt) (id : ℕ) (path : Text) (expected : ℕ) (t : Transfer)
    → IsReachable t.disk.table
    → Reaches (fetch_once a id path expected t)
unfolding fetch_once
fetch_once-Reaches a id path expected t v = elim (Bool-cases a.builds) [
  | inr b ↦ rw b v
  | inl b ↦ elim (Option-cases a.response) [
    | inl e ↦ rw b (rw e v)
    | inr (r, e) ↦ rw b (rw e (respond-Reaches id path a.now a r expected t v))
  ]
]
