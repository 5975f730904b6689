-- ===== src/Dsl/Lifecycle/Ports.antt =====
-- The port of the mock server that `Setup` of dsl/pact.go starts, with the search of utils/port.go and
-- the client of dsl/client.go behind it.
use mathlib.Core.Path.{subst}
use pact_go.Common.{
  ℕ, ◌≤◌, Text, bytes, Error, ok, err, returns, true, none, some, List, [], ◌∷◌, ◌++◌, ◌≡◌, ◌≢◌,
  refl, sym, inl, inr, Result-cases,
}
use pact_go.Install.{Commander}
use pact_go.Utils.{find_port_in_range}
use pact_go.Utils.Decimal.{itoa, max_int}
use pact_go.Utils.Listen.{Net, get_free_port, usable_on, IsFree, find_port_in_range-IsFree}
use pact_go.Client.ServiceManager.{ServiceManager, Cmd, command}
use pact_go.Client.Services.{new_mock_service, start}
use pact_go.Dsl.Client.{Host, PactClient, spawn_pid}
use pact_go.Dsl.Lifecycle.Servers.{server_of-inv}
use pact_go.Dsl.Client.Servers.{start_server}
use pact_go.Dsl.Pact.{MockServer, Pact, setup, server_args, setup_port}
use pact_go.Dsl.Lifecycle.{Machine, Environment, system}
use pact_go.Dsl.Lifecycle.Teardown.{setup-StartedBy}

-- A machine whose ports are those of a network.
abbrev pub on_net : {Address : Type 0} → Net Address → Environment → Environment
on_net net environment = record environment {
  check_port = usable_on net;
  free_port = get_free_port net;
}

module _ {Address : Type 0} (net : Net Address) where
  -- A port for a text of allowed ports: one of them that is free and an int, or a free port if the text
  -- is empty, or 0 if there is no such port.
  pub data IsPortFor (allowed : Text) : ℕ → Type 0 where
    found :
        (port : ℕ)
        → allowed ≢ []
        → find_port_in_range (usable_on net) allowed ≡ ok port
        → IsFree net port
        → port ≤ max_int
        → IsPortFor allowed port
    missing :
        (e : Error)
        → allowed ≢ []
        → find_port_in_range (usable_on net) allowed ≡ err e
        → IsPortFor allowed 0
    given : (port : ℕ) → allowed ≡ [] → get_free_port net ≡ ok port → IsPortFor allowed port
    refused : (e : Error) → allowed ≡ [] → get_free_port net ≡ err e → IsPortFor allowed 0

-- pact-mock-service is launched with these arguments and the port of the server, and runs under the
-- pid of the server.
pub record IsLaunched (s : ServiceManager) (server : MockServer) (args : List Text) : Type 0 where
  pub cmd : Cmd
  pub handed : s.adding ≡ some cmd
  pub path : cmd.path ≡ bytes "pact-mock-service"
  pub arguments : cmd.args ≡ bytes "service" ∷ (args ++ bytes "--port" ∷ itoa server.port ∷ [])
  pub runs : cmd.process ≡ some server.pid

start_server-IsLaunched :
    {W : Type 0} (host : Host W) (p p' : PactClient) (args : List Text) (port : ℕ) (w w' : W)
    (server : MockServer)
    → start_server host p args port w ≡ returns (p', w', server)
    → (server.port ≡ port) × IsLaunched p'.pact_mock_svc_manager server args
unfolding start_server start command new_mock_service
start_server-IsLaunched host p p' args port w w' server h =
    let all_args = args ++ bytes "--port" ∷ itoa port ∷ [] in
    let svc = new_mock_service all_args p.pact_mock_svc_manager in
    let r = start host.environ (spawn_pid host) svc w in
    let (ran, same, listens) =
      server_of-inv port r.2.process (record p { pact_mock_svc_manager = r.0 }) p' _ w' server h in
    (
      listens,
      record {
        cmd = r.2;
        handed = λ i. (sym same i).pact_mock_svc_manager.adding;
        path = refl;
        arguments = λ i. bytes "service" ∷ (args ++ bytes "--port" ∷ itoa (sym listens i) ∷ []);
        runs = ran;
      },
    )

module _ {W Version Address Interaction Message : Type 0} (host : Host W)
    (commander : Commander Version) (entries : List (Text × Text)) (environment : Environment)
    (net : Net Address) where
  setup_port-IsPortFor :
      (q : Pact ℕ Interaction Message) (allowed : Text)
      → q.allowed_mock_server_ports ≡ allowed
      → IsPortFor net allowed
          (setup_port (system host commander entries (on_net net environment)) q)
  unfolding setup_port
  setup_port-IsPortFor q [] e = elim (Result-cases (get_free_port net)) [
    | inl (x, r) ↦ rw (e, setup_port, r) (refused x refl r)
    | inr (port, r) ↦ rw (e, setup_port, r) (given port refl r)
  ]
  setup_port-IsPortFor q (c ∷ s) e =
      elim (Result-cases (find_port_in_range (usable_on net) (c ∷ s))) [
        | inl (x, r) ↦ rw (e, setup_port, r) (missing x (cc) r)
        | inr (port, r) ↦
            let (free, le) = find_port_in_range-IsFree net (c ∷ s) port r in
            rw (e, setup_port, r) (found port (cc) r free le)
      ]

  -- A test that has no server and is set up has one, for which the client has launched
  -- pact-mock-service with the port of the server. That port is, if the test allows ports, one that
  -- FindPortInRange gives for them, which checkPort could listen on and which is at most the largest
  -- int, and otherwise one that GetFreePort gives; it is 0 if these give none.
  pub setup-IsLaunched :
      (p q : Pact ℕ Interaction Message) (m m' : Machine W)
      → p.server ≡ none
      → setup (system host commander entries (on_net net environment)) true p m ≡ returns (q, m')
      → (s : MockServer) × (q.server ≡ some s)
        × IsPortFor net p.allowed_mock_server_ports s.port
        × IsLaunched m'.client.pact_mock_svc_manager s
            (server_args (system host commander entries (on_net net environment)) q)
  setup-IsLaunched p q m m' fresh h =
      let sys = system host commander entries (on_net net environment) in
      let (s, started) =
        setup-StartedBy host commander entries (on_net net environment) p q m m' fresh h in
      let (listens, launched) =
        start_server-IsLaunched host (record m.client { timeout_duration = started.timeout })
          m'.client (server_args sys q) (setup_port sys q) m.outside m'.outside s started.ran in
      (
        s,
        started.there,
        subst (IsPortFor net p.allowed_mock_server_ports) (sym listens)
            (setup_port-IsPortFor q p.allowed_mock_server_ports started.ports),
        launched,
      )
