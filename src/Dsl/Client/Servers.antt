-- ===== src/Dsl/Client/Servers.antt =====
-- dsl/client.go: the mock servers, and the publishing of pacts.
pub mod Registered
use pact_go.Common.{
  ℕ, ℤ, pos, Text, bytes, Error, Result, Outcome, returns, panics, ◌>>=◌, Bool, Option, none, some,
  List, [], ◌∷◌, ◌++◌,
}
use pact_go.Utils.Decimal.{itoa}
use pact_go.Types.PublishRequest.{PublishRequest}
use pact_go.Client.ServiceManager.{ServiceManager, Cmd, ProcessMap, Ending, list}
use pact_go.Client.Services.{new_mock_service, new_publish_service, start, stop}
use pact_go.Dsl.Pact.{MockServer}
use pact_go.Dsl.Client.{PactClient, Host, spawn_pid, wait_for_port, get_network_interface, show_int}

-- `cmd.Process.Pid`, which panics on a command that did not start.
abbrev pub server_of : ℕ → Option ℕ → Outcome MockServer
server_of port none = panics
server_of port (some pid) = returns (record { pid = pid; port = port; error = none; args = [] })

abbrev pub start_message : ℕ → Text
start_message port =
    bytes "Timed out waiting for Mock Server to start on port "
    ++ itoa port
    ++ bytes " - are you sure it's running?"

module _ {W : Type 0} (host : Host W) where
  -- The error of the wait is dropped.
  unfoldable pub start_server :
      PactClient → List Text → ℕ → W → Outcome (PactClient × W × MockServer)
  start_server p args port w =
      let svc =
        new_mock_service (args ++ bytes "--port" ∷ itoa port ∷ []) p.pact_mock_svc_manager in
      let (svc', w₁, cmd) = start host.environ (spawn_pid host) svc w in
      let p' = record p { pact_mock_svc_manager = svc' } in
      let (w₂, late) =
        wait_for_port host (pos port) (get_network_interface p') p.address p.timeout_duration
          (start_message port) w₁ in
      server_of port cmd.process >>= λ server. returns (p', w₂, server)

  -- `cmd.Wait()` waits for the process that `Start` gave.
  unfoldable pub publish_pacts : PactClient → PublishRequest → W → PactClient × W × Option Error
  publish_pacts p request w =
      let svc = new_publish_service request.args p.publish_svc_manager in
      let (svc', w₁, cmd) = start host.environ (spawn_pid host) svc w in
      let (w₂, e) = host.wait cmd w₁ in (record p { publish_svc_manager = svc' }, w₂, e)

-- `ListServers`: a key of the map stands where a port is meant.
unfoldable pub list_servers_of : ProcessMap → Outcome (List MockServer)
list_servers_of [] = returns []
list_servers_of ((port, s) ∷ m) = do
  server ← server_of port s.process
  servers ← list_servers_of m
  returns (server ∷ servers)

unfoldable pub list_servers : PactClient → Outcome (List MockServer)
unfolding list
list_servers p = list_servers_of (list p.pact_mock_svc_manager)

-- `StopServer`, where the waits of `Stop` end so.
unfoldable pub stop_server :
    Ending → PactClient → MockServer → Outcome (PactClient × MockServer × Option Error)
stop_server ending p server = do
  (svc, done, e) ← stop server.pid ending p.pact_mock_svc_manager
  returns (record p { pact_mock_svc_manager = svc }, record server { error = e }, e)

-- The loop of `RemoveAllServers`, over the commands of the verification service; `endings` says how
-- the waits for a pid end.
unfoldable pub stop_all : (ℕ → Ending) → ProcessMap → ServiceManager → Outcome ServiceManager
stop_all endings [] svc = returns svc
stop_all endings ((k, s) ∷ m) svc = do
  pid ← elim s.process [ none ↦ panics | some pid ↦ returns pid ]
  (svc', done, e) ← stop pid (endings pid) svc
  stop_all endings m svc'

unfoldable pub remove_all_servers : (ℕ → Ending) → PactClient → Outcome PactClient
unfolding list
remove_all_servers endings p = do
  svc ← stop_all endings (list p.verification_svc_manager) p.pact_mock_svc_manager
  returns (record p { pact_mock_svc_manager = svc })
