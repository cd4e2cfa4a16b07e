-- ===== src/Discovery/Choice.antt =====
-- Which connection Discover of internal/source/plex/discover.go chooses.
use mathlib.Core.List.{Mem, mem-cons_self, mem-cons_of_mem}
use mathlib.Core.List.Perm
use plex_mirror.Base.{
  ◌≤◌, ◌≡◌, refl, sym, ap, ◌⊎◌, inl, inr, Bool, true, false, Option, none, some, List, [], ◌∷◌,
  or_else, is_empty, trim_space, Text, Bool-cases, All, All-map, arith,
}
use plex_mirror.Discovery.Ranking.{
  IsRanked, rank_connections-perm, rank_connections-IsRanked, All-of_ranked,
}
use plex_mirror.Discovery.{
  Connection, Resource, Discovered, Failure, Result, ok, err, conn_rank, rank_connections,
  trim_slashes, probe_loop, connect_ranked, connect, discover, select_server,
}

module _ (probe : Text → Bool) where
  -- What the probing loop finds among the connections.
  abbrev IsFound : List Connection → Option Connection → Type 0
  IsFound cs none = All (λ x. probe x.uri ≡ false) cs
  IsFound cs (some c) =
      Mem c cs
      × (probe c.uri ≡ true)
      × All (λ x. (conn_rank c ≤ conn_rank x) ⊎ (probe x.uri ≡ false)) cs

  skip-IsFound :
      (c : Connection) (cs : List Connection) (o : Option Connection)
      → probe c.uri ≡ false
      → IsFound cs o
      → IsFound (c ∷ cs) o
  skip-IsFound c cs none p h = (p, h)
  skip-IsFound c cs (some d) p (m, q, all) = (mem-cons_of_mem c m, q, (inr p, all))

  first-IsFound :
      (c : Connection) (cs : List Connection)
      → probe c.uri ≡ true
      → All (λ d. conn_rank c ≤ conn_rank d) cs
      → IsFound (c ∷ cs) (some c)
  first-IsFound c cs p h = (
    mem-cons_self,
    p,
    (
      inl (omega arith),
      All-map (λ d. conn_rank c ≤ conn_rank d)
          (λ d. (conn_rank c ≤ conn_rank d) ⊎ (probe d.uri ≡ false)) (λ d k. inl k) cs h,
    ),
  )

  kept :
      (c : Connection) (cs : List Connection) (o : Option Connection)
      → o ≡ some c
      → IsFound (c ∷ cs) (some c)
      → IsFound (c ∷ cs) o
  kept c cs o q h = rw q h

  -- Once a connection is chosen it stays.
  pub probe_loop_keeps :
      (probe_all : Bool) (cs : List Connection) (c : Connection)
      → (probe_loop probe probe_all cs (some c)).1 ≡ some c
  unfolding probe_loop
  probe_loop_keeps probe_all [] c = refl
  probe_loop_keeps probe_all (d ∷ ds) c = elim (Bool-cases (probe d.uri)) [
    | inl e ↦ rw e (probe_loop_keeps probe_all ds c)
    | inr e ↦ rw e (probe_loop_keeps probe_all ds c)
  ]

  probe_loop-IsFound :
      (probe_all : Bool) (cs : List Connection)
      → IsRanked cs
      → IsFound cs (probe_loop probe probe_all cs none).1
  unfolding probe_loop
  probe_loop-IsFound probe_all [] h = tt
  probe_loop-IsFound probe_all (c ∷ cs) h = elim (Bool-cases (probe c.uri)) [
    | inr e ↦ rw e (
        skip-IsFound c cs (probe_loop probe probe_all cs none).1 e
          (probe_loop-IsFound probe_all cs h.1))
    | inl e ↦ elim (Bool-cases probe_all) [
      | inl a ↦
          rw (e, a)
            (kept c cs (probe_loop probe probe_all cs (some c)).1 (probe_loop_keeps probe_all cs c)
              (first-IsFound c cs e h.0))
      | inr a ↦ rw (e, a) (first-IsFound c cs e h.0)
    ]
  ]

-- A connection is the best choice: it is one of the server's, and each other is no better ranked, or
-- does not respond while this one does.
abbrev pub IsBest : (Text → Bool) → List Connection → Connection → Type 0
IsBest probe cs c =
    Mem c cs
    × All (λ x. (conn_rank c ≤ conn_rank x) ⊎ ((probe x.uri ≡ false) × (probe c.uri ≡ true))) cs

found-IsBest :
    (probe : Text → Bool) (best : Connection) (others : List Connection) (o : Option Connection)
    → IsRanked (best ∷ others)
    → IsFound probe (best ∷ others) o
    → IsBest probe (best ∷ others) (or_else best o)
found-IsBest probe best others none ranked h = (
  mem-cons_self,
  (
    inl (omega arith),
    All-map (λ x. conn_rank best ≤ conn_rank x)
        (λ x. (conn_rank best ≤ conn_rank x) ⊎ ((probe x.uri ≡ false) × (probe best.uri ≡ true)))
        (λ x k. inl k) others ranked.0,
  ),
)
found-IsBest probe best others (some c) ranked (m, q, all) = (
  m,
  All-map (λ x. (conn_rank c ≤ conn_rank x) ⊎ (probe x.uri ≡ false))
      (λ x. (conn_rank c ≤ conn_rank x) ⊎ ((probe x.uri ≡ false) × (probe c.uri ≡ true)))
      (λ x k. elim k [ inl r ↦ inl r | inr n ↦ inr (n, q) ]) (best ∷ others) all,
)

pub Result-cases {ℓ} :
    {A : Type ℓ} (m : Result A) → ((a : A) × (m ≡ ok a)) ⊎ ((x : Failure) × (m ≡ err x))
Result-cases (ok a) = inl (a, refl)
Result-cases (err x) = inr (x, refl)

pub of_ok : {x y : Discovered} → ok x ≡ ok y → x ≡ y
of_ok h = cc

pub err-ne-ok {ℓ} : {A : Type ℓ} {x : Failure} {y : A} → ¬ (Result.err x ≡ ok y)
err-ne-ok h = cc

-- What Discover returns for the selected server.
abbrev pub IsConnected : (Text → Bool) → Resource → Discovered → Type 0
IsConnected probe r d =
    (c : Connection) × (d.base_url ≡ trim_slashes c.uri)
    × (d.relay ≡ c.relay)
    × (d.access_token ≡ r.access_token)
    × IsBest probe r.connections c

connect_ranked-IsBest :
    (probe : Text → Bool) (probe_all : Bool) (r : Resource) (cs : List Connection) (d : Discovered)
    → IsRanked cs
    → connect_ranked probe probe_all r cs ≡ ok d
    → (c : Connection) × (d.base_url ≡ trim_slashes c.uri)
      × (d.relay ≡ c.relay)
      × (d.access_token ≡ r.access_token)
      × IsBest probe cs c
unfolding connect_ranked
connect_ranked-IsBest probe probe_all r [] d ranked e = absurd (err-ne-ok e)
connect_ranked-IsBest probe probe_all r (best ∷ others) d ranked e =
    let o = (probe_loop probe probe_all (best ∷ others) none).1 in
    let same = sym (of_ok e) in
    (
      or_else best o,
      ap (λ (x : Discovered). x.base_url) same,
      ap (λ (x : Discovered). x.relay) same,
      ap (λ (x : Discovered). x.access_token) same,
      found-IsBest probe best others o ranked
          (probe_loop-IsFound probe probe_all (best ∷ others) ranked),
    )

connect-IsConnected :
    (probe : Text → Bool) (probe_all : Bool) (r : Resource) (d : Discovered)
    → connect probe probe_all r ≡ ok d
    → IsConnected probe r d
unfolding connect
connect-IsConnected probe probe_all r d e = elim (Bool-cases (is_empty r.access_token)) [
  | inl p ↦ absurd (err-ne-ok (rw p at e))
  | inr p ↦
      let (c, url, relay, token, (m, all)) =
        connect_ranked-IsBest probe probe_all r (rank_connections r.connections) d
          (rank_connections-IsRanked r.connections) (rw p at e) in
      (
        c,
        url,
        relay,
        token,
        (
          (Perm.mem_iff (rank_connections-perm r.connections)).0 m,
          All-of_ranked
              (λ x. (conn_rank c ≤ conn_rank x) ⊎ ((probe x.uri ≡ false) × (probe c.uri ≡ true)))
              r.connections all,
        ),
      )
]

-- Where Discover succeeds, its URL, relay flag and token are those of the server that selectServer
-- picks, and the URL is that of the server's best connection: each other connection of the server is no better ranked, or does not
-- respond while the chosen one does.
pub discover_best :
    (probe : Text → Bool) (probe_all : Bool) (token server : Text) (resources : List Resource)
    (d : Discovered)
    → discover probe probe_all token server (ok resources) ≡ ok d
    → (r : Resource) × (select_server resources server ≡ ok r) × IsConnected probe r d
unfolding discover
discover_best probe probe_all token server resources d e =
    elim (Bool-cases (is_empty (trim_space token))) [
      | inl p ↦ absurd (err-ne-ok (rw p at e))
      | inr p ↦ elim (Bool-cases (is_empty (trim_space server))) [
        | inl q ↦ absurd (err-ne-ok (rw (p, q) at e))
        | inr q ↦ elim (Result-cases (select_server resources server)) [
          | inr (x, u) ↦ absurd (err-ne-ok (rw (u, discover) at (rw (p, q) at e)))
          | inl (r, u) ↦
              (r, u, connect-IsConnected probe probe_all r d (rw (u, discover) at (rw (p, q) at e)))
        ]
      ]
    ]
