-- ===== src/Discovery/Ranking.antt =====
-- rankConnections of internal/source/plex/discover.go: a sorted rearrangement.
use mathlib.Core.List.{Perm}
use mathlib.Core.List.Perm
use plex_mirror.Base.{◌≤◌, inl, inr, List, [], ◌∷◌, ltb, Bool-cases, All, All-map, arith}
use plex_mirror.Discovery.{Connection, conn_rank, insert_ranked, rank_connections}

insert_ranked-perm : (c : Connection) (cs : List Connection) → Perm (insert_ranked c cs) (c ∷ cs)
unfolding insert_ranked
insert_ranked-perm c [] = Perm.refl (c ∷ [])
insert_ranked-perm c (d ∷ ds) = elim (Bool-cases (ltb (conn_rank d) (conn_rank c))) [
  | inl e ↦ rw e (Perm.trans (Perm.cons d (insert_ranked-perm c ds)) (Perm.swap c d ds))
  | inr e ↦ rw e (Perm.refl (c ∷ d ∷ ds))
]

pub rank_connections-perm : (cs : List Connection) → Perm (rank_connections cs) cs
unfolding rank_connections
rank_connections-perm [] = Perm.refl []
rank_connections-perm (c ∷ cs) =
    Perm.trans (insert_ranked-perm c (rank_connections cs)) (Perm.cons c (rank_connections-perm cs))

-- Best-ranked first.
abbrev pub IsRanked : List Connection → Type 0
IsRanked [] = Unit {0}
IsRanked (c ∷ cs) = All (λ d. conn_rank c ≤ conn_rank d) cs × IsRanked cs

module _ {κ} (P : Connection → Type κ) where
  All-insert_ranked :
      (c : Connection) (cs : List Connection) → P c → All P cs → All P (insert_ranked c cs)
  unfolding insert_ranked
  All-insert_ranked c [] p h = (p, tt)
  All-insert_ranked c (d ∷ ds) p h = elim (Bool-cases (ltb (conn_rank d) (conn_rank c))) [
    | inl e ↦ rw e (h.0, All-insert_ranked c ds p h.1)
    | inr e ↦ rw e (p, h)
  ]

  All-of_inserted :
      (c : Connection) (cs : List Connection) → All P (insert_ranked c cs) → P c × All P cs
  unfolding insert_ranked
  All-of_inserted c [] h = h
  All-of_inserted c (d ∷ ds) h = elim (Bool-cases (ltb (conn_rank d) (conn_rank c))) [
    | inl e ↦ let k = rw e at h in let (p, rest) = All-of_inserted c ds k.1 in (p, (k.0, rest))
    | inr e ↦ rw e at h
  ]

  pub All-of_ranked : (cs : List Connection) → All P (rank_connections cs) → All P cs
  unfolding rank_connections
  All-of_ranked [] h = tt
  All-of_ranked (c ∷ cs) h =
      let (p, rest) = All-of_inserted c (rank_connections cs) h in (p, All-of_ranked cs rest)

insert_ranked-IsRanked :
    (c : Connection) (cs : List Connection) → IsRanked cs → IsRanked (insert_ranked c cs)
unfolding insert_ranked
insert_ranked-IsRanked c [] h = (tt, tt)
insert_ranked-IsRanked c (d ∷ ds) h = elim (Bool-cases (ltb (conn_rank d) (conn_rank c))) [
  | inl e ↦ rw e (
    All-insert_ranked (λ x. conn_rank d ≤ conn_rank x) c ds (ground arith) h.0,
    insert_ranked-IsRanked c ds h.1,
  )
  | inr e ↦
      let first : conn_rank c ≤ conn_rank d = ground arith in
      rw e (
        (
          first,
          All-map (λ x. conn_rank d ≤ conn_rank x) (λ x. conn_rank c ≤ conn_rank x)
              (λ x k. omega arith) ds h.0,
        ),
        h,
      )
]

pub rank_connections-IsRanked : (cs : List Connection) → IsRanked (rank_connections cs)
unfolding rank_connections
rank_connections-IsRanked [] = tt
rank_connections-IsRanked (c ∷ cs) =
    insert_ranked-IsRanked c (rank_connections cs) (rank_connections-IsRanked cs)
