-- ===== src/Tests/Sessions.antt =====
-- The calls of a consumer test on a concrete machine.
use pact_go.Common.{
  ℕ, bytes, Error, returns, true, Option, none, some, List, [], ◌∷◌, ◌≡◌, refl, text_eq,
}
use pact_go.Common.Runs.{run_calls, at_state}
use pact_go.Common.Steps.{unless_failed}
use pact_go.Dsl.MockService.{call, sent, reply_error}
use pact_go.Dsl.MockService
use pact_go.Dsl.Pact.{
  MockServer, setup, setup_logging, logging_with, setup_defaults, check_tools, checked, setup_port,
  start_with, start_if_needed, add_interaction, add_message, teardown, teardown_with,
}
use pact_go.Dsl.Pact.Verify.{
  verify, verify_on, verify_steps, add_all, write_pact, write_on, no_interactions,
}
use pact_go.Dsl.Pact.Sessions.{
  Call, set_up, expect, note, check, write, tear_down, call_pact, promised,
}
use pact_go.Dsl.Pact.Sessions.Refinement.{
  at_session, first_session, contract_with, run_calls-session,
}
use pact_go.Tests.Consumer.{Log, machine, network, fresh, started}
use pact_go.Tests.Consumer

abbrev passing : Log → Log × Option Error
passing w = (6 ∷ w, none)

-- Two verifications: the first has two interactions, the second none.
abbrev calls : List (Call Log ℕ ℕ)
calls = check passing ∷ check passing ∷ expect 15 ∷ note 3 ∷ set_up true ∷ write ∷ tear_down ∷ []

run_calls-session_example :
    (c : ℕ) × (s : MockServer) × (started.pact_client ≡ some c)
    × (started.server ≡ some s)
    × (run_calls (call_pact machine network) calls started []
        ≡ at_state (at_session started) (
            run_calls
              (promised machine network (contract_with fresh c))
              calls
              (first_session fresh s)
              []))
run_calls-session_example =
    run_calls-session machine network fresh started [] (2 ∷ 1 ∷ []) [] calls Consumer.set_up

ran :
    run_calls (call_pact machine network) calls started []
    ≡ returns (
      record started { interactions = 15 ∷ []; message_interactions = 3 ∷ [] },
      3 ∷ 4 ∷ 4 ∷ 4 ∷ 6 ∷ 4 ∷ 4 ∷ [],
      none ∷ some no_interactions ∷ none ∷ none ∷ none ∷ none ∷ none ∷ [],
    )
unfolding run_calls call_pact verify verify_on verify_steps add_all write_pact write_on teardown
    teardown_with add_interaction add_message unless_failed call sent reply_error setup
    setup_logging logging_with setup_defaults check_tools checked setup_port start_with
    start_if_needed MockService.add_interaction MockService.verify MockService.delete_interactions
    MockService.write_pact bytes text_eq
ran = refl
