-- ===== src/Dsl/Lifecycle/Teardown.antt =====
-- dsl/pact.go `Setup` and `Teardown` with the client behind them: the server of a test.
use pact_go.Common.{
  ℕ, Text, Error, Outcome, returns, ◌>>=◌, >>=_inv, returns_inj, true, Option, none, some, List,
  ◌≡◌, refl, sym, ap, ◌∙◌, inl, inr, Bool-cases,
}
use pact_go.Install.{Commander}
use pact_go.Client.ServiceManager.{ServiceManager, get, stop_result}
use pact_go.Client.ServiceManager.Steps.{Inv}
use pact_go.Client.ServiceManager.Rounds.{Rounds, work}
use pact_go.Dsl.Client.{Host, PactClient}
use pact_go.Dsl.Client.Servers.{start_server}
use pact_go.Dsl.Pact.{
  MockServer, Pact, System, setup, start_if_needed, start_with, teardown, teardown_with,
  server_args, setup_port, setup_defaults, setup_logging, logging_with, needs_check,
}
use pact_go.Dsl.Pact.Setup.{readied, after_check, setup-readied}
use pact_go.Dsl.Lifecycle.{Machine, Environment, system, recorded}
use pact_go.Dsl.Lifecycle.Servers.{
  IsStarting, start_server-IsStarting, stop_server-recorded, stopping, stopping-unregisters,
}

module _ {W Client Interaction Message : Type 0} (sys : System W Client) where
  -- A start without a server is that of the client.
  started_inv :
      (client : Option Client) (p p' : Pact Client Interaction Message) (w w' : W)
      → start_with sys none client p w ≡ returns (p', w')
      → (c : Client) × (s : MockServer) × (client ≡ some c)
        × (sys.start_server c (server_args sys p) (setup_port sys p) w ≡ returns (w', s))
        × (p' ≡ record p { server = some s })
  unfolding start_with
  started_inv none p p' w w' h = absurd (cc)
  started_inv (some c) p p' w w' h =
      let ((w₁, s), ran, same) =
        >>=_inv (sys.start_server c (server_args sys p) (setup_port sys p) w) _ h in
      let e = returns_inj same in (c, s, refl, ran ∙ (λ i. returns ((e i).1, s)), λ i. (sym e i).0)

  -- What the stages before the start leave as it is.
  abbrev untouched : Pact Client Interaction Message → Option MockServer × Text
  untouched p = (p.server, p.allowed_mock_server_ports)

  logging_kept :
      (f : Option Text) (p : Pact Client Interaction Message)
      → untouched (logging_with f p) ≡ untouched p
  unfolding logging_with
  logging_kept (some f) p = refl
  logging_kept none p = refl

  after_check_kept :
      (p : Pact Client Interaction Message) (w : W)
      → untouched (after_check sys p w).0 ≡ untouched p
  after_check_kept p w = elim (Bool-cases (needs_check sys p)) [
    | inl needed ↦ rw needed refl
    | inr skipped ↦ rw skipped refl
  ]

  readied_kept :
      (p : Pact Client Interaction Message) (w : W) → untouched (readied sys p w).0 ≡ untouched p
  unfolding setup_defaults setup_logging
  readied_kept p w = after_check_kept (setup_logging p) w ∙ logging_kept p.log_filter p

  pub teardown-stop_server :
      (p : Pact Client Interaction Message) (c : Client) (s s' : MockServer) (w w' : W)
      (e : Option Error)
      → p.server ≡ some s
      → p.pact_client ≡ some c
      → sys.stop_server c s w ≡ returns (w', s', e)
      → teardown sys p w ≡ returns (record p { server = some s' }, w')
  unfolding teardown teardown_with
  teardown-stop_server p c s s' w w' e there given stopped =
      (λ i. teardown_with sys (there i) (given i) p w)
      ∙ ap
          (λ (r : Outcome (W × MockServer × Option Error)).
            r >>= λ (w', s', e). returns (record p { server = some s' }, w'))
          stopped

module _ {W Version Interaction Message : Type 0} (host : Host W) (commander : Commander Version)
    (entries : List (Text × Text)) (environment : Environment) where
  -- The check of the tools leaves the client as it is.
  check_kept :
      (p : Pact ℕ Interaction Message) (m : Machine W)
      → (readied (system host commander entries environment) p m).1 ≡ m
  unfolding setup_logging
  check_kept p m =
      elim (Bool-cases
        (needs_check (system host commander entries environment) (setup_logging p))) [
          | inl needed ↦ rw needed refl
          | inr skipped ↦ rw skipped refl
        ]

  -- The server of a `Pact` is one that the client starts, on the port of the `Pact`.
  pub record StartedBy (p q : Pact ℕ Interaction Message) (m m' : Machine W) (s : MockServer)
      : Type 0 where
    pub timeout : ℕ
    pub given : q.pact_client ≡ some timeout
    pub there : q.server ≡ some s
    pub ports : q.allowed_mock_server_ports ≡ p.allowed_mock_server_ports
    pub ran :
        start_server host
          (record m.client { timeout_duration = timeout })
          (server_args (system host commander entries environment) q)
          (setup_port (system host commander entries environment) q)
          m.outside
        ≡ returns (m'.client, m'.outside, s)

  pub setup-StartedBy :
      (p q : Pact ℕ Interaction Message) (m m' : Machine W)
      → p.server ≡ none
      → setup (system host commander entries environment) true p m ≡ returns (q, m')
      → (s : MockServer) × StartedBy p q m m' s
  unfolding start_if_needed setup_port
  setup-StartedBy p q m m' fresh h =
      let sys = system host commander entries environment in
      let (pass, starts) = setup-readied sys true p m h in
      let ready = (readied sys p m).0 in
      let kept = readied_kept sys p m in
      let (c, s, given, ran, same) =
        started_inv sys ready.pact_client ready q (readied sys p m).1 m' (
          (λ i.
            start_with sys (sym ((λ j. (kept j).0) ∙ fresh) i) ready.pact_client ready
              (readied sys p m).1)
          ∙ starts) in
      let before = record (readied sys p m).1.client { timeout_duration = c } in
      let outside = (readied sys p m).1.outside in
      let (r, e₁, e₂) =
        >>=_inv (start_server host before (server_args sys ready) (setup_port sys ready) outside) _
          ran in
      let end = returns_inj e₂ in
      (
        s,
        record {
          timeout = c;
          given = (λ i. (same i).pact_client) ∙ given;
          there = λ i. (same i).server;
          ports = (λ i. (same i).allowed_mock_server_ports) ∙ (λ i. (kept i).1);
          ran =
              (λ i.
                start_server host (record (sym (check_kept p m) i).client { timeout_duration = c })
                  (server_args sys (same i)) (setup_port sys (same i))
                  (sym (check_kept p m) i).outside)
              ∙ e₁
              ∙ (λ i. returns ((end i).0.client, (end i).0.outside, (end i).1));
        },
      )

  -- The server that a `Setup` starts is being recorded by the client.
  pub setup-IsStarting :
      (p q : Pact ℕ Interaction Message) (m m' : Machine W)
      → p.server ≡ none
      → setup (system host commander entries environment) true p m ≡ returns (q, m')
      → Inv m.client.pact_mock_svc_manager
      → (c : ℕ) × (s : MockServer) × (q.server ≡ some s)
        × (q.pact_client ≡ some c)
        × IsStarting m'.client.pact_mock_svc_manager s
        × Inv m'.client.pact_mock_svc_manager
  setup-IsStarting p q m m' fresh h v =
      let sys = system host commander entries environment in
      let (s, started) = setup-StartedBy p q m m' fresh h in
      let before = record m.client { timeout_duration = started.timeout } in
      let (starting, v') =
        start_server-IsStarting host before m'.client (server_args sys q) (setup_port sys q)
          m.outside m'.outside s started.ran v in
      (started.timeout, s, started.there, started.given, starting, v')

  -- A test that has no server and is set up has one, by the client of the library. Once its start is
  -- recorded, a Teardown returns, and leaves it with the error of its end, if there is one. The monitors
  -- can then end the work that is left, and when they have, its process stands in the map no longer.
  pub setup-teardown :
      (p q : Pact ℕ Interaction Message) (m m' : Machine W)
      → p.server ≡ none
      → Inv m.client.pact_mock_svc_manager
      → setup (system host commander entries environment) true p m ≡ returns (q, m')
      → (s : MockServer) × (m'' : Machine W) × (q.server ≡ some s)
        × (teardown (system host commander entries environment) q (recorded m')
            ≡ returns (
              record q {
                server = some (record s { error = (stop_result (environment.ending s.pid)).1 });
              },
              m'',
            ))
        × (m''.outside ≡ m'.outside)
        × ((t : ServiceManager) × Rounds
              (work m''.client.pact_mock_svc_manager)
              m''.client.pact_mock_svc_manager
              t)
        × ((t : ServiceManager)
            → Rounds (work m''.client.pact_mock_svc_manager) m''.client.pact_mock_svc_manager t
            → get s.pid t.process_map ≡ none)
  setup-teardown p q m m' fresh v h =
      let sys = system host commander entries environment in
      let (c, s, there, given, starting, v') = setup-IsStarting p q m m' fresh h v in
      let end = environment.ending s.pid in
      let svc = m'.client.pact_mock_svc_manager in
      let m'' = record m' {
        client = record m'.client { pact_mock_svc_manager = stopping svc starting };
      } in
      let (ends, gone) = stopping-unregisters svc s starting v' in
      (
        s,
        m'',
        there,
        teardown-stop_server sys q c s (record s { error = (stop_result end).1 }) (recorded m') m''
            (stop_result end).1 there given
            (ap
              (λ (r : Outcome (PactClient × MockServer × Option Error)).
                r >>= λ (client, server', e).
                returns (record (recorded m') { client = client }, server', e))
              (stop_server-recorded m'.client s end starting)),
        refl,
        ends,
        gone,
      )
