-- ===== src/Dsl/Client/Servers/Registered.antt =====
-- What dsl/client.go says of the mock servers that its manager knows.
use pact_go.Common.{returns, none, List, [], ◌∷◌, ◌≡◌, refl}
use pact_go.Client.ServiceManager.{ServiceManager, ProcessMap, setup, list}
use pact_go.Client.ServiceManager.Registry.{IsRegistry}
use pact_go.Client.ServiceManager.Steps.{Reach, Reach-Inv}
use pact_go.Dsl.Pact.{MockServer}
use pact_go.Dsl.Client.{PactClient}
use pact_go.Dsl.Client.Servers.{list_servers_of, list_servers}

-- A server for each pid of the map, with the pid also for a port.
unfoldable pub servers_at_pids : ProcessMap → List MockServer
servers_at_pids [] = []
servers_at_pids ((pid, c) ∷ m) =
    record { pid = pid; port = pid; error = none; args = [] } ∷ servers_at_pids m

listed : (m : ProcessMap) → IsRegistry m → list_servers_of m ≡ returns (servers_at_pids m)
unfolding list_servers_of servers_at_pids
listed [] r = refl
listed ((pid, c) ∷ m) r = rw (r.0, listed m r.2)

-- On a client whose manager of mock servers went through any run, `ListServers` returns, and gives
-- each process of the map once, with its pid where its port is meant.
pub list_servers-registered :
    (p : PactClient) (svc : ServiceManager)
    → Reach (setup svc) p.pact_mock_svc_manager
    → list_servers p ≡ returns (servers_at_pids p.pact_mock_svc_manager.process_map)
unfolding list_servers list
list_servers-registered p svc r =
    listed p.pact_mock_svc_manager.process_map (Reach-Inv svc r).registry
