-- ===== src/Discovery.antt =====
-- internal/source/plex/discover.go: the server on plex.tv and the connection to it. What plex.tv
-- returns and whether a URL responds are arguments. strings.EqualFold folds ASCII letters.
pub mod Ranking
pub mod Choice
pub mod Reachable
use plex_mirror.Base.{
  ℕ, suc, ◌≤◌, Bool, true, false, not, ◌&&◌, ◌||◌, Option, none, some, List, [], ◌∷◌, map,
  if◌then◌else◌, ltb, ◌==◌, or_else, is_some, Text, codes, text_eq, is_empty, length, keep,
  to_lower, trim_right, trim_space,
}
use plex_mirror.Source.{SourceError}

pub record Connection : Type 0 where
  pub protocol : Text
  pub uri : Text
  pub local : Bool
  pub relay : Bool

pub record Resource : Type 0 where
  pub name : Text
  pub client_identifier : Text
  pub provides : Text
  pub access_token : Text
  pub connections : List Connection

-- `reachable` is none where the connection was not probed.
pub record ConnectionProbe : Type 0 where
  pub uri : Text
  pub protocol : Text
  pub local : Bool
  pub relay : Bool
  pub reachable : Option Bool

pub record Discovered : Type 0 where
  pub name : Text
  pub client_identifier : Text
  pub base_url : Text
  pub access_token : Text
  pub relay : Bool
  pub candidates : List ConnectionProbe

pub data Failure : Type 0 where
  token_required : Failure
  server_required : Failure
  fetch_failed : SourceError → Failure
  no_server : Failure
  ambiguous : ℕ → Failure
  no_access_token : Failure
  no_connections : Failure

pub data Result {ℓ} (A : Type ℓ) : Type ℓ where
  ok : A → Result A
  err : Failure → Result A

unfoldable pub equal_fold : Text → Text → Bool
unfolding to_lower text_eq
equal_fold a b = text_eq (to_lower a) (to_lower b)

abbrev pub prepend : ℕ → List Text → List Text
prepend c [] = (c ∷ []) ∷ []
prepend c (x ∷ xs) = (c ∷ x) ∷ xs

-- strings.Split(s, ",")
unfoldable pub split_comma : Text → List Text
split_comma [] = [] ∷ []
split_comma (c ∷ cs) = let rest = split_comma cs in if c == b',' then [] ∷ rest else prepend c rest

abbrev any_server : List Text → Bool
any_server [] = false
any_server (p ∷ ps) = text_eq (trim_space p) (codes "server") || any_server ps

-- isServer
unfoldable pub is_server : Resource → Bool
unfolding split_comma trim_space text_eq
is_server r = any_server (split_comma r.provides)

-- selectServer
unfoldable pub select_server : List Resource → Text → Result Resource
unfolding is_server equal_fold text_eq keep
select_server resources want =
    elim (keep (λ r. equal_fold r.name want || text_eq r.client_identifier want)
      (keep is_server resources)) [
        | [] ↦ err no_server
        | r ∷ rs ↦ elim rs [ [] ↦ ok r | _ ∷ ss ↦ err (ambiguous (suc (suc (length ss)))) ]
      ]

unfoldable pub conn_rank : Connection → ℕ
unfolding equal_fold
conn_rank c =
    let https = equal_fold c.protocol (codes "https") in
    if https && not c.relay && not c.local
    then 0
    else if https && not c.relay && c.local
    then 1
    else if not c.relay
    then 2
    else if https && c.relay
    then 3
    else 4

-- The stable sort of rankConnections: a connection goes before those of its own rank that follow it.
unfoldable pub insert_ranked : Connection → List Connection → List Connection
insert_ranked c [] = c ∷ []
insert_ranked c (d ∷ ds) =
    let rest = insert_ranked c ds in
    if ltb (conn_rank d) (conn_rank c) then d ∷ rest else c ∷ d ∷ ds

unfoldable pub rank_connections : List Connection → List Connection
unfolding insert_ranked
rank_connections [] = []
rank_connections (c ∷ cs) = insert_ranked c (rank_connections cs)

-- strings.TrimRight(uri, "/")
abbrev pub trim_slashes : Text → Text
trim_slashes uri = trim_right (λ c. c == b'/') uri

unfoldable pub candidate : Option Bool → Connection → ConnectionProbe
unfolding trim_right
candidate reachable c = record {
  uri = trim_slashes c.uri;
  protocol = c.protocol;
  local = c.local;
  relay = c.relay;
  reachable = reachable;
}

module _ (probe : Text → Bool) (probe_all : Bool) where
  -- The probing loop; `chosen` is the first reachable connection so far. It stops there, unless all
  -- are to be probed.
  unfoldable pub probe_loop :
      List Connection → Option Connection → List ConnectionProbe × Option Connection
  unfolding candidate
  probe_loop [] chosen = ([], chosen)
  probe_loop (c ∷ cs) chosen =
      let ok = probe c.uri in
      let found = probe_loop cs (some c) in
      let rest = probe_loop cs chosen in
      if ok && not (is_some chosen)
      then if probe_all
        then (candidate (some true) c ∷ found.0, found.1)
        else (candidate (some true) c ∷ map (candidate none) cs, some c)
      else (candidate (some ok) c ∷ rest.0, rest.1)

  -- Discover once the connections are ranked.
  unfoldable pub connect_ranked : Resource → List Connection → Result Discovered
  unfolding probe_loop trim_right
  connect_ranked r [] = err no_connections
  connect_ranked r (best ∷ others) =
      let out = probe_loop (best ∷ others) none in
      let chosen = or_else best out.1 in
      ok (record {
        name = r.name;
        client_identifier = r.client_identifier;
        base_url = trim_slashes chosen.uri;
        access_token = r.access_token;
        relay = chosen.relay;
        candidates = out.0;
      })

  -- Discover once the server is selected.
  unfoldable pub connect : Resource → Result Discovered
  unfolding rank_connections connect_ranked
  connect r =
      if is_empty r.access_token
      then err no_access_token
      else connect_ranked r (rank_connections r.connections)

  unfoldable pub discover : Text → Text → Result (List Resource) → Result Discovered
  unfolding select_server connect trim_space
  discover token server fetched =
      if is_empty (trim_space token)
      then err token_required
      else if is_empty (trim_space server)
      then err server_required
      else elim fetched [
        | err e ↦ err e
        | ok resources ↦ elim (select_server resources server) [ err e ↦ err e | ok r ↦ connect r ]
      ]

-- anyReachable of internal/service/health.go
unfoldable pub any_reachable : List ConnectionProbe → Bool
any_reachable [] = false
any_reachable (c ∷ cs) =
    let rest = any_reachable cs in elim c.reachable [ none ↦ rest | some r ↦ r || rest ]
