-- ===== src/Tests/MessageProvider.antt =====
-- The verification of a message provider with the client of the library on a concrete host.
use pact_go.Common.{
  ℕ, Text, bytes, returns, none, some, List, [], ◌∷◌, ◌≡◌, ◌↔◌, inr, refl, trim_space, has_prefix,
}
use pact_go.Common.Steps.{unless_failed}
use pact_go.Dsl.Pact.{
  Pact, setup, setup_logging, logging_with, setup_defaults, check_tools, checked, setup_port,
  start_if_needed,
}
use pact_go.Dsl.Pact.Ready.{IsConfigured}
use pact_go.Dsl.Client.{PactClient, wait_for_port, poll}
use pact_go.Dsl.Client.Pipes.{launch}
use pact_go.Dsl.Client.Verifier.{
  verify_provider, verify_valid, run_verifier, read_results, collect, is_result,
}
use pact_go.Types.Args.{add, add_each, done, ◌>>◌, fail_if}
use pact_go.Types.VerifyRequest.{validate, validate_args, validate_broker, validate_options}
use pact_go.Types.Selector.{add_selectors}
use pact_go.Dsl.Verifying.{call_client}
use pact_go.Dsl.Messages.Provider.{
  message_request, behind_wait, behind_listen, behind_port, verify_message_provider_raw,
}
use pact_go.Dsl.Messages.Provider.Composed.{IsVerified, message_provider-IsVerified}
use pact_go.Tests.Client
use pact_go.Tests.Client.{client, host, scanner, format, marshal_tag}
use pact_go.Tests.Consumer.{Log}
use pact_go.Tests.Verifying
use pact_go.Tests.Verifying.{messaging, real_machine, users, configured, real_tools, connected}

verified_messages :
    verify_message_provider_raw messaging connected real_machine users Verifying.message_request []
    ≡ returns (configured, 4 ∷ 1 ∷ 5 ∷ 5 ∷ 20 ∷ 1 ∷ [], bytes "{}" ∷ [], none)
unfolding verify_message_provider_raw behind_port behind_listen behind_wait message_request
    call_client setup setup_logging logging_with setup_defaults check_tools checked setup_port
    start_if_needed verify_provider verify_valid run_verifier read_results collect is_result launch
    unless_failed wait_for_port poll validate validate_args validate_broker validate_options
    add_selectors add done ◌>>◌ fail_if trim_space has_prefix bytes add_each
verified_messages = refl

message_provider-IsVerified_example :
    (c : PactClient) × (q : Pact PactClient ℕ ℕ) × (w₁ : Log) × IsConfigured real_machine users q
    × (q.pact_client ≡ some c)
    × ((q' : Pact PactClient ℕ ℕ) (w' : Log) (response : List Text)
        → (verify_message_provider_raw messaging connected real_machine users
              Verifying.message_request []
            ≡ returns (q', w', response, none))
          ↔ ((q ≡ q')
              × IsVerified messaging host scanner [] Client.decode format marshal_tag real_tools c q
                  Verifying.message_request w₁ w' response))
message_provider-IsVerified_example =
    message_provider-IsVerified messaging host scanner [] Client.decode format marshal_tag
      real_tools real_machine users Verifying.message_request [] (inr refl)
