-- ===== src/Tests/Verifying.antt =====
-- The verification of a provider and of a message provider on a concrete machine. The world is the
-- list of what happened, the latest first.
use pact_go.Common.{
  List, ◌↔◌, ℕ, Text, bytes, ok, err, returns, true, false, none, some, [], ◌∷◌, ◌++◌, ◌≡◌, inr,
  refl,
}
use pact_go.Types.VerifyRequest.{validate, validate_args, validate_broker, validate_options}
use pact_go.Types.Selector.{add_selectors}
use pact_go.Types.Args.{add, add_each, fail_if, done, ◌>>◌}
use pact_go.Common.{trim_space, has_prefix}
use pact_go.Common.Steps.{unless_failed}
use pact_go.Proxy.{http_reverse_proxy, listen_on}
use pact_go.Dsl.Client.{wait_for_port, poll}
use pact_go.Dsl.Client.Pipes.{launch}
use pact_go.Dsl.Client.Verifier.{
  verify_provider, verify_valid, run_verifier, read_results, collect, is_result,
}
use pact_go.Dsl.Pact.{
  Pact, System, setup, setup_logging, logging_with, setup_defaults, check_tools, checked,
  setup_port, start_if_needed,
}
use pact_go.Dsl.Pact.Ready.{IsConfigured}
use pact_go.Dsl.Messages.Request.{VerifyMessageRequest}
use pact_go.Dsl.Messages.Provider.{Messaging, verify_message_provider_raw}
use pact_go.Dsl.Messages.Provider.Outcomes.{message_provider-Ends}
use pact_go.Dsl.Messages.Provider.Outcomes
use pact_go.Dsl.Client.Address.{ParsedUrl}
use pact_go.Dsl.Verifying.{
  Verification, verify_provider_raw, verify_parsed, behind_proxy, verify_at, behind_wait,
  call_client, verification_request,
}
use pact_go.Dsl.Verifying.Outcomes.{Ends, verify_provider_raw-Ends}
use pact_go.Dsl.Client.{PactClient}
use pact_go.Dsl.Verifying.Composed.{with_client, IsVerified, verify_provider_raw-Verifies}
use pact_go.Tests.Client
use pact_go.Tests.Client.{client, host, scanner, parse, format, marshal_tag, request}
use pact_go.Tests.Consumer.{Log, machine, fresh}
use pact_go.Tests.Provider.{hooked, decode, write_header}

abbrev users_url : ParsedUrl
users_url = record {
  scheme = bytes "http";
  host = bytes "localhost:8080";
  path = [];
  hostname = bytes "localhost";
  port = bytes "8080";
}

abbrev tools : Verification Log ℕ Text ℕ Text
tools = record {
  parse = λ url. ok users_url;
  transport = λ tls r w. returns (100 ∷ w);
  free_port = ok 5000;
  serve = λ port handler w. 20 ∷ w;
  wait_for_port = λ port timeout message w. (21 ∷ w, none);
  verify_provider = λ client request w. (22 ∷ w, request.provider_base_url ∷ [], none);
}

verify_provider_raw-Ends_example :
    (c : ℕ) × (q : Pact ℕ ℕ ℕ) × (w₁ : Log) × IsConfigured machine fresh q
    × (q.pact_client ≡ some c)
    × Ends tools write_header decode c q hooked w₁
        (verify_provider_raw tools write_header decode machine fresh hooked [])
verify_provider_raw-Ends_example =
    verify_provider_raw-Ends tools write_header decode machine fresh hooked [] (inr refl)

abbrev pub messaging : Messaging Log ℕ ℕ
messaging = record {
  listen = λ port. none;
  read = ok;
  write = λ answer w. answer.status ∷ w;
  unmarshal = λ s. err (bytes "no JSON");
  marshal = λ v. ok [];
}

abbrev pub message_request : VerifyMessageRequest Log ℕ ℕ
message_request = record {
  pact_urls = bytes "pact.json" ∷ [];
  broker_url = [];
  tags = [];
  consumer_version_selectors = [];
  broker_username = [];
  broker_password = [];
  broker_token = [];
  publish_verification_results = false;
  provider_version = [];
  provider_tags = [];
  message_handlers = [];
  state_handlers = [];
  args = [];
}

message_provider-Ends_example :
    (c : ℕ) × (q : Pact ℕ ℕ ℕ) × (w₁ : Log) × IsConfigured machine fresh q
    × (q.pact_client ≡ some c)
    × Outcomes.Ends messaging tools c q message_request w₁
        (verify_message_provider_raw messaging tools machine fresh message_request [])
message_provider-Ends_example =
    message_provider-Ends messaging tools machine fresh message_request [] (inr refl)

-- The machine with the client of the library, and a provider with no hooks.
abbrev pub real_machine : System Log PactClient
real_machine = record {
  check_disabled = machine.check_disabled;
  check_installation = machine.check_installation;
  default_dir = machine.default_dir;
  from_slash = machine.from_slash;
  check_port = machine.check_port;
  free_port = machine.free_port;
  new_client = λ timeout. client;
  start_server = λ client args port w.
      returns (2 ∷ w, record { pid = 9; port = port; error = none; args = [] });
  stop_server = λ client server w. returns (3 ∷ w, server, none);
}

abbrev pub users : Pact PactClient ℕ ℕ
users = record {
  server = none;
  pact_client = none;
  consumer = [];
  provider = bytes "users";
  interactions = [];
  message_interactions = [];
  log_level = [];
  log_filter = none;
  log_dir = [];
  pact_dir = [];
  pact_file_write_mode = [];
  specification_version = 0;
  host = [];
  network = [];
  allowed_mock_server_ports = [];
  disable_tool_validity_check = false;
  client_timeout = 0;
  tool_validity_check = false;
}

abbrev pub configured : Pact PactClient ℕ ℕ
configured = record users {
  pact_client = some client;
  log_level = bytes "INFO";
  log_filter = some (bytes "INFO");
  log_dir = bytes "/work/" ++ bytes "logs";
  pact_dir = bytes "/work/" ++ bytes "pacts";
  pact_file_write_mode = bytes "overwrite";
  specification_version = 2;
  host = bytes "localhost";
  network = bytes "tcp";
  client_timeout = 10000;
  tool_validity_check = true;
}

abbrev pub real_tools : Verification Log PactClient Text ℕ Text
real_tools = record {
  parse = parse;
  transport = tools.transport;
  free_port = tools.free_port;
  serve = tools.serve;
  wait_for_port = tools.wait_for_port;
  verify_provider = λ client request w. (w, [], none);
}

abbrev pub connected : Verification Log PactClient Text ℕ Text
connected = with_client host scanner [] Client.decode format marshal_tag real_tools

verified_users :
    verify_provider_raw connected write_header decode real_machine users request []
    ≡ returns (configured, 4 ∷ 1 ∷ 5 ∷ 5 ∷ 20 ∷ 1 ∷ [], bytes "{}" ∷ [], none)
unfolding verify_provider_raw setup setup_logging logging_with setup_defaults check_tools checked
    setup_port start_if_needed verify_parsed behind_proxy verify_at behind_wait call_client
    verification_request http_reverse_proxy listen_on verify_provider verify_valid run_verifier
    read_results collect is_result launch unless_failed wait_for_port poll validate validate_args
    validate_broker validate_options add_selectors add_each add done ◌>>◌ fail_if trim_space
    has_prefix bytes
verified_users = refl

verify_provider_raw-Verifies_example :
    (c : PactClient) × (q : Pact PactClient ℕ ℕ) × (w₁ : Log) × IsConfigured real_machine users q
    × (q.pact_client ≡ some c)
    × ((q' : Pact PactClient ℕ ℕ) (w' : Log) (response : List Text)
        → (verify_provider_raw connected write_header decode real_machine users request []
            ≡ returns (q', w', response, none))
          ↔ ((q ≡ q')
              × IsVerified host scanner [] Client.decode format marshal_tag real_tools write_header
                  decode c q request w₁ w' response))
verify_provider_raw-Verifies_example =
    verify_provider_raw-Verifies host scanner [] Client.decode format marshal_tag real_tools
      write_header decode real_machine users request [] (inr refl)
