-- ===== src/Tests/Reconnecting.antt =====
-- Runs of doReconnect in internal/service/health.go.
use plex_mirror.Base.{
  ◌≡◌, refl, Bool, false, Option, none, some, [], ◌∷◌, Text, codes, text_eq, trim_space,
}
use plex_mirror.Source.{SourceError}
use plex_mirror.Discovery.{Connection, Resource, discover, any_reachable}
use plex_mirror.Discovery.{conn_rank}
use plex_mirror.Discovery
use plex_mirror.Service.Reload.{Outside}
use plex_mirror.Service.Reconnect.{do_reconnect, none_reachable}
use plex_mirror.Tests.Configuring.{base}
use plex_mirror.Tests.Applying.{outside, process}

abbrev link : Text → Connection
link uri = record { uri = uri; protocol = codes "http"; local = false; relay = false }

abbrev server : Resource
server = record {
  name = codes "s";
  client_identifier = codes "c";
  provides = codes "server";
  access_token = codes "a";
  connections = link (codes "http://q") ∷ link (codes "http://p/") ∷ [];
}

abbrev responding : Text → Bool
responding uri = text_eq uri (codes "http://p/")

-- A server with two connections, of which one responds.
abbrev reachable : Outside
reachable = record outside {
  probe = responding;
  resources = λ c. Discovery.ok (server ∷ []);
  base = record base { plex_server = codes "s" };
}

abbrev listed : Text → Option SourceError
listed name = none

reconnects :
    (do_reconnect reachable (λ d. d) listed false 9 (codes "plex") process).0.live.plex
    ≡ some (codes "http://p", codes "a")
unfolding do_reconnect trim_space conn_rank
reconnects = refl

-- No connection responds: the runtime stays.
outage :
    (do_reconnect
      (record reachable { probe = λ uri. false })
      (λ d. d)
      listed
      false
      9
      (codes "plex")
      process).1
    ≡ some none_reachable
unfolding do_reconnect trim_space conn_rank
outage = refl
