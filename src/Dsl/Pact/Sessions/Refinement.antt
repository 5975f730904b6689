-- ===== src/Dsl/Pact/Sessions/Refinement.antt =====
-- The calls of a consumer test on a `Pact` of dsl/pact.go that is set up do what is promised.
use pact_go.Common.{
  given-some, bytes, Error, Outcome, returns, panics, ◌>>=◌, true, Option, none, some, List, [],
  ◌≡◌, refl, ap, ◌∙◌, inl, inr, Bool-cases,
}
use pact_go.Common.Lists.{is_nil}
use pact_go.Common.Runs.{run_calls, at_state, run_calls-promised}
use pact_go.Dsl.MockService.{MockService, Http}
use pact_go.Dsl.MockService
use pact_go.Dsl.Pact.{
  MockServer, Pact, System, or_text, setup_logging, setup_defaults, add_message, setup,
  add_interaction, teardown, teardown_with,
}
use pact_go.Dsl.Pact.Ready.{IsConfigured, IsReady, setup-IsConfigured, setup_again, logging_kept}
use pact_go.Dsl.Pact.Verify.{verify_on, verify, write_on, write_pact}
use pact_go.Dsl.Pact.Verify.Order.{verify_steps-run_steps}
use pact_go.Dsl.Pact.Sessions.{
  Call, set_up, expect, note, check, write, tear_down, no_error, call_pact, Session, Contract,
  service_at, promised_check, promised,
}

-- The `Pact` that stands for a session.
abbrev pub at_session :
    {Client Interaction Message : Type 0}
    → Pact Client Interaction Message
    → Session Interaction Message
    → Pact Client Interaction Message
at_session q s = record q {
  interactions = s.pending;
  message_interactions = s.messages;
  server = some s.server;
}

abbrev contract_of :
    {Client Interaction Message : Type 0}
    → Pact Client Interaction Message
    → Client
    → Contract Client
contract_of q c = record {
  client = c;
  host = q.host;
  consumer = q.consumer;
  provider = q.provider;
  mode = q.pact_file_write_mode;
}

-- The session with which a test begins.
abbrev pub first_session :
    {Client Interaction Message : Type 0}
    → Pact Client Interaction Message
    → MockServer
    → Session Interaction Message
first_session p s = record {
  pending = p.interactions;
  messages = p.message_interactions;
  server = s;
}

-- The names of a test and its defaults.
abbrev pub contract_with :
    {Client Interaction Message : Type 0}
    → Pact Client Interaction Message
    → Client
    → Contract Client
contract_with p c = record {
  client = c;
  host = or_text (bytes "localhost") p.host;
  consumer = p.consumer;
  provider = p.provider;
  mode = or_text (bytes "overwrite") p.pact_file_write_mode;
}

module _ {W Client Interaction Message : Type 0} (sys : System W Client) where
  at_session-IsReady :
      (q : Pact Client Interaction Message) (s : Session Interaction Message)
      → IsReady sys q
      → IsReady sys (at_session q s)
  unfolding setup_defaults
  at_session-IsReady q s ready = record {
    tested = ready.tested;
    filter = ready.filter;
    logging = ready.logging;
    defaults = λ k. record (ready.defaults k) {
      interactions = s.pending;
      message_interactions = s.messages;
      server = some s.server;
    };
    running = s.server;
    server = refl;
  }

  teardown_at :
      (o : Outcome (W × MockServer × Option Error)) (q : Pact Client Interaction Message)
      (s : Session Interaction Message)
      → no_error
          (o >>= λ (w', server, e). returns (record (at_session q s) { server = some server }, w'))
        ≡ at_state
            (at_session q)
            (o >>= λ (w', server, e). returns (record s { server = server }, w', none))
  teardown_at (returns r) q s = refl
  teardown_at panics q s = refl

  teardown_client :
      (client : Option Client) (c : Client) (q : Pact Client Interaction Message)
      (s : Session Interaction Message) (w : W)
      → client ≡ some c
      → no_error (teardown_with sys (some s.server) client (at_session q s) w)
        ≡ at_state (at_session q) (
            sys.stop_server c s.server w >>= λ (w', server, e).
            returns (record s { server = server }, w', none))
  unfolding teardown_with
  teardown_client none c q s w same = absurd (cc)
  teardown_client (some c') c q s w same =
      let same_client : c' ≡ c =
        ap (λ (o : Option Client). elim o [ some x ↦ x | none ↦ c ]) same in
      rw same_client (teardown_at (sys.stop_server c s.server w) q s)

  module _ (http : Http W Interaction) where
    check_at :
        (q : Pact Client Interaction Message) (c : Client) (s : Session Interaction Message)
        (test : W → W × Option Error) (w : W)
        → IsReady sys q
        → verify sys http (at_session q s) test w
          ≡ returns (
              let (s', w', e) = promised_check sys http (contract_of q c) test s w in
              (at_session q s', w', e))
    unfolding verify verify_on
    check_at q c s test w ready =
        rw (setup_again sys (at_session q s) true w (at_session-IsReady q s ready))
          (elim (Bool-cases (is_nil s.pending)) [
            | inl empty ↦ rw empty
            | inr given ↦ rw given λ k.
                let m = service_at (contract_of q c) s.server [] in
                let (w₁, e) = verify_steps-run_steps http m s.pending test w k in
                returns (
                  at_session q (record s { pending = [] }),
                  (MockService.delete_interactions http m w₁).0,
                  e,
                )
          ])

    -- One call, on the `Pact` of a session.
    call-promised :
        (call : Call W Interaction Message) (q : Pact Client Interaction Message) (c : Client)
        (s : Session Interaction Message) (w : W)
        → IsReady sys q
        → q.pact_client ≡ some c
        → call_pact sys http call (at_session q s) w
          ≡ at_state (at_session q) (promised sys http (contract_of q c) call s w)
    unfolding call_pact promised add_interaction write_pact write_on teardown add_message
        setup_logging
    call-promised (set_up start) q c s w ready client =
        rw (setup_again sys (at_session q s) start w (at_session-IsReady q s ready))
    call-promised (expect i) q c s w ready client =
        rw (setup_again sys (at_session q s) true w (at_session-IsReady q s ready))
    call-promised (note m) q c s w ready client =
        rw (logging_kept sys q.log_filter ready.filter (at_session q s) ready.logging)
    call-promised (check test) q c s w ready client = check_at q c s test w ready
    call-promised write q c s w ready client =
        rw (setup_again sys (at_session q s) true w (at_session-IsReady q s ready))
    call-promised tear_down q c s w ready client = teardown_client q.pact_client c q s w client

    -- The names and defaults of the test are those of its `Pact`, set up.
    in_contract :
        (p q : Pact Client Interaction Message) (c : Client) (s : MockServer)
        (calls : List (Call W Interaction Message)) (w : W)
        → IsConfigured sys p q
        → run_calls (promised sys http (contract_of q c)) calls (first_session q s) w
          ≡ run_calls (promised sys http (contract_with p c)) calls (first_session p s) w
    in_contract p q c s calls w config = λ k.
        run_calls
          (promised sys http (record {
            client = c;
            host = config.host k;
            consumer = config.consumer k;
            provider = config.provider k;
            mode = config.write_mode k;
          }))
          calls
          (record { pending = config.interactions k; messages = config.messages k; server = s }) w

    pub calls-promised :
        (p q : Pact Client Interaction Message) (c : Client) (s : MockServer)
        (calls : List (Call W Interaction Message)) (w : W)
        → IsConfigured sys p q
        → IsReady sys q
        → q.pact_client ≡ some c
        → q.server ≡ some s
        → run_calls (call_pact sys http) calls q w
          ≡ at_state
              (at_session q)
              (run_calls (promised sys http (contract_with p c)) calls (first_session p s) w)
    calls-promised p q c s calls w config ready client server =
        (λ k. run_calls (call_pact sys http) calls (record q { server = server k }) w)
        ∙ run_calls-promised (call_pact sys http) (promised sys http (contract_of q c))
            (at_session q) (λ call s' w'. call-promised call q c s' w' ready client) calls
            (first_session q s) w
        ∙ ap (at_state (at_session q)) (in_contract p q c s calls w config)

    -- Whatever calls a test makes on a `Pact` that its `Setup` has prepared, their results, the world
    -- and the `Pact` behind them are those that are promised: they depend only on the names and
    -- defaults of the test, its server, and what is pending. A further `Setup` does nothing and no
    -- server is started, also behind a `Teardown`; an interaction is verified by the next `Verify`
    -- alone; and nothing but the interactions, the messages and the server of the `Pact` changes.
    pub run_calls-session :
        (p q : Pact Client Interaction Message) (w w₁ w₂ : W)
        (calls : List (Call W Interaction Message))
        → setup sys true p w ≡ returns (q, w₁)
        → (c : Client) × (s : MockServer) × (q.pact_client ≡ some c)
          × (q.server ≡ some s)
          × (run_calls (call_pact sys http) calls q w₂
              ≡ at_state
                  (at_session q)
                  (run_calls (promised sys http (contract_with p c)) calls (first_session p s) w₂))
    run_calls-session p q w w₁ w₂ calls prepared =
        let (config, ready) = setup-IsConfigured sys p q w w₁ prepared in
        let (c, client) = given-some q.pact_client config.client in
        (
          c,
          ready.running,
          client,
          ready.server,
          calls-promised p q c ready.running calls w₂ config ready client ready.server,
        )
