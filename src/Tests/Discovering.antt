-- ===== src/Tests/Discovering.antt =====
-- Runs of internal/source/plex/discover.go.
use plex_mirror.Base.{◌≡◌, refl, not, Bool, true, false, none, some, [], ◌∷◌, Text, codes, text_eq}
use plex_mirror.Discovery.{
  Connection, Resource, Discovered, candidate, conn_rank, discover, select_server, ok,
}
use plex_mirror.Discovery.Choice.{IsConnected, discover_best}

abbrev direct : Connection
direct = record { protocol = codes "https"; uri = codes "https://a/"; local = false; relay = false }

abbrev relayed : Connection
relayed = record { protocol = codes "https"; uri = codes "https://r/"; local = false; relay = true }

abbrev local : Connection
local = record { protocol = codes "https"; uri = codes "https://l/"; local = true; relay = false }

abbrev den : Resource
den = record {
  name = codes "Den";
  client_identifier = codes "id1";
  provides = codes "client, server";
  access_token = codes "t1";
  connections = relayed ∷ local ∷ direct ∷ [];
}

-- The direct connection does not respond.
abbrev responds : Text → Bool
responds uri = not (text_eq uri (codes "https://a/"))

abbrev found : Discovered
found = record {
  name = codes "Den";
  client_identifier = codes "id1";
  base_url = codes "https://l";
  access_token = codes "t1";
  relay = false;
  candidates =
      candidate (some false) direct ∷ candidate (some true) local ∷ candidate none relayed ∷ [];
}

discovers : discover responds false (codes "t") (codes "den") (ok (den ∷ [])) ≡ ok found
unfolding discover text_eq conn_rank
discovers = refl

discover_best_example :
    (r : Resource) × (select_server (den ∷ []) (codes "den") ≡ ok r) × IsConnected responds r found
discover_best_example =
    discover_best responds false (codes "t") (codes "den") (den ∷ []) found discovers
