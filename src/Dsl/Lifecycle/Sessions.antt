-- ===== src/Dsl/Lifecycle/Sessions.antt =====
-- A whole consumer test of dsl/pact.go with the client of dsl/client.go behind it: its set-up, its
-- calls, and the end of its server.
use pact_go.Common.{
  ℕ, Text, Error, Outcome, returns, ◌>>=◌, true, Option, none, some, List, ◌≡◌, refl, ap, ◌∙◌,
}
use pact_go.Common.Runs.{run_calls, at_state}
use pact_go.Install.{Commander}
use pact_go.Client.ServiceManager.{ServiceManager, get, stop_result}
use pact_go.Client.ServiceManager.Steps.{Inv}
use pact_go.Client.ServiceManager.Rounds.{Rounds, work}
use pact_go.Dsl.Client.{Host, PactClient}
use pact_go.Dsl.Client.Servers.{stop_server}
use pact_go.Dsl.MockService.{Http}
use pact_go.Dsl.Pact.{MockServer, Pact, setup, teardown}
use pact_go.Dsl.Pact.Ready.{setup-IsConfigured}
use pact_go.Dsl.Pact.Sessions.{Call, call_pact}
use pact_go.Dsl.Pact.Sessions.Refinement.{at_session, first_session, contract_with, calls-promised}
use pact_go.Dsl.Pact.Sessions.Kept.{AreQuiet, promised_calls-Returns}
use pact_go.Dsl.Lifecycle.{Machine, Environment, system, recorded}
use pact_go.Dsl.Lifecycle.Servers.{stop_server-recorded, stopping, stopping-unregisters}
use pact_go.Dsl.Lifecycle.Teardown.{teardown-stop_server, setup-IsStarting}

-- The HTTP calls of a test go through the world around the client.
abbrev pub outside : {W Interaction : Type 0} → Http W Interaction → Http (Machine W) Interaction
outside http = record {
  marshal = http.marshal;
  new_request = http.new_request;
  send = λ method url body m.
      let (w, r) = http.send method url body m.outside in (record m { outside = w }, r);
}

-- The client of a machine, which the integration tests do not touch.
abbrev pub client_in : {W : Type 0} → Machine W → PactClient
client_in m = m.client

module _ {W Version Interaction Message : Type 0} (host : Host W) (commander : Commander Version)
    (entries : List (Text × Text)) (environment : Environment) (http : Http W Interaction) where
  -- A test that has no server and is set up has one, by the client of the library. Once its start is
  -- recorded, the calls of the test return, whatever they are but a `Teardown`, with integration tests
  -- that leave the client alone; and so does the `Teardown` behind them, which leaves the server with
  -- the error of its end, if there is one. The monitors can then end the work that is left, and when
  -- they have, the process of the server stands in the map no longer.
  pub setup-calls-teardown :
      (p q : Pact ℕ Interaction Message) (m m' : Machine W)
      (calls : List (Call (Machine W) Interaction Message))
      → p.server ≡ none
      → Inv m.client.pact_mock_svc_manager
      → setup (system host commander entries environment) true p m ≡ returns (q, m')
      → AreQuiet client_in calls
      → (s : MockServer) × (q₁ : Pact ℕ Interaction Message) × (m₁ m₂ : Machine W) × (es : List
          (Option Error))
        × (q.server ≡ some s)
        × (run_calls
              (call_pact (system host commander entries environment) (outside http))
              calls
              q
              (recorded m')
            ≡ returns (q₁, m₁, es))
        × (teardown (system host commander entries environment) q₁ m₁
            ≡ returns (
              record q₁ {
                server = some (record s { error = (stop_result (environment.ending s.pid)).1 });
              },
              m₂,
            ))
        × ((t : ServiceManager) × Rounds
              (work m₂.client.pact_mock_svc_manager)
              m₂.client.pact_mock_svc_manager
              t)
        × ((t : ServiceManager)
            → Rounds (work m₂.client.pact_mock_svc_manager) m₂.client.pact_mock_svc_manager t
            → get s.pid t.process_map ≡ none)
  setup-calls-teardown p q m m' calls fresh v prepared quiet =
      let sys = system host commander entries environment in
      let (c, s, there, given, starting, v') =
        setup-IsStarting host commander entries environment p q m m' fresh prepared v in
      let (config, ready) = setup-IsConfigured sys p q m m' prepared in
      let (s₁, m₁, es, ran, kept_server, kept) =
        promised_calls-Returns client_in (outside http) (λ method url body w. refl) sys
          (contract_with p c) calls (first_session p s) (recorded m') quiet in
      let end = environment.ending s.pid in
      let svc = m'.client.pact_mock_svc_manager in
      let m₂ : Machine W = record {
        client = record m'.client { pact_mock_svc_manager = stopping svc starting };
        outside = m₁.outside;
      } in
      let (ends, gone) = stopping-unregisters svc s starting v' in
      (
        s,
        at_session q s₁,
        m₁,
        m₂,
        es,
        there,
        calls-promised sys (outside http) p q c s calls (recorded m') config ready given there
            ∙ ap (at_state (at_session q)) ran,
        teardown-stop_server sys (at_session q s₁) c s (record s { error = (stop_result end).1 }) m₁
            m₂ (stop_result end).1 (ap some kept_server) given
            (ap
              (λ (r : Outcome (PactClient × MockServer × Option Error)).
                r >>= λ (client, server', e). returns (record m₁ { client = client }, server', e))
              ((λ i. stop_server end (kept i) s) ∙ stop_server-recorded m'.client s end starting)),
        ends,
        gone,
      )
