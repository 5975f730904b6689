-- ===== src/Tests/RecordedMessage.antt =====
-- A test of a message consumer with the client of the library on a concrete host.
use pact_go.Common.{
  ℕ, Text, bytes, Error, Result, ok, returns, Option, none, some, [], ◌∷◌, ◌≡◌, refl, true,
}
use pact_go.Dsl.Messages.{Message}
use pact_go.Dsl.Pact.{
  Pact, setup, setup_logging, logging_with, setup_defaults, check_tools, checked, setup_port,
  start_if_needed,
}
use pact_go.Dsl.Client.{PactClient}
use pact_go.Dsl.Client.Pipes.{launch, read_pipes}
use pact_go.Dsl.Client.MessageTool.{
  run_message, behind_launch, behind_output, reified, reify_valid, reify_message, update_valid,
  update_message_pact,
}
use pact_go.Types.MessageRequest.{validate_message, validate_reification}
use pact_go.Common.Steps.{unless_failed}
use pact_go.Dsl.Messages.Consumer.{
  MessageClient, consume, narrow_type, yield_message, update_pact, verify_message_consumer_raw,
}
use pact_go.Dsl.Messages.Consumer.Composed.{with_client, raw_result}
use pact_go.Tests.Client.{host}
use pact_go.Tests.Consumer.{Log}
use pact_go.Tests.MessageConsumer.{event, accepting}
use pact_go.Tests.Verifying.{real_machine, users, configured}

abbrev decode : Text → Option (Option ℕ) × Option Error
decode s = (some (some 7), none)

-- Of these, the two runs of pact-message are those of the client.
abbrev tools : MessageClient Log PactClient ℕ ℕ
tools = record {
  reify_message = λ client content w. (w, ok []);
  is_typed = λ value. true;
  type_name = λ value. [];
  narrow = λ value raw. (some 7, none);
  update_message_pact = λ client request w. (w, none);
}

abbrev content_json : Option ℕ → Result Text
content_json c = ok (bytes "5")

abbrev message_json : Message ℕ ℕ → Result Text
message_json m = ok (bytes "{}")

-- The fields of the two `Pact`s are those of the verification, but for the messages.
abbrev with_events : Pact PactClient ℕ ℕ → Pact PactClient ℕ (Message ℕ ℕ)
with_events p = record {
  server = p.server;
  pact_client = p.pact_client;
  consumer = bytes "web";
  provider = p.provider;
  interactions = p.interactions;
  message_interactions = [];
  log_level = p.log_level;
  log_filter = p.log_filter;
  log_dir = p.log_dir;
  pact_dir = p.pact_dir;
  pact_file_write_mode = p.pact_file_write_mode;
  specification_version = p.specification_version;
  host = p.host;
  network = p.network;
  allowed_mock_server_ports = p.allowed_mock_server_ports;
  disable_tool_validity_check = p.disable_tool_validity_check;
  client_timeout = p.client_timeout;
  tool_validity_check = p.tool_validity_check;
}

recorded_event :
    verify_message_consumer_raw
      (with_client host decode content_json message_json tools)
      real_machine
      (with_events users)
      event
      accepting
      []
    ≡ returns (
      with_events configured,
      record event { message_type = some 7 },
      4 ∷ 3 ∷ 2 ∷ 1 ∷ 5 ∷ 4 ∷ 3 ∷ 2 ∷ 1 ∷ 1 ∷ [],
      none,
    )
unfolding verify_message_consumer_raw setup setup_logging logging_with setup_defaults check_tools
    checked setup_port start_if_needed consume narrow_type yield_message update_pact raw_result
    reify_message reify_valid reified update_message_pact update_valid validate_message
    validate_reification run_message behind_launch behind_output launch read_pipes unless_failed
    bytes
recorded_event = refl
