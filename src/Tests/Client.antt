-- ===== src/Tests/Client.antt =====
-- The client of the tools on a concrete host. The world is the list of what happened, the latest
-- first.
use pact_go.Common.{
  ℕ, pos, Text, bytes, Error, Result, ok, err, returns, Option, none, List, [], ◌∷◌, ◌++◌, ◌≡◌,
  refl, arith, false, has_prefix, trim_space,
}
use pact_go.Common.Split.{LacksByte}
use pact_go.Utils.Decimal.{itoa}
use pact_go.Types.Selector.{ConsumerVersionSelector}
use pact_go.Types.VerifyRequest.{
  VerifyRequest, validate, validate_args, validate_broker, validate_options,
}
use pact_go.Types.Selector.{add_selectors}
use pact_go.Types.Args.{add, add_each, fail_if, done, ◌>>◌}
use pact_go.Common.Steps.{unless_failed}
use pact_go.Client.Services.{new_verification_service, new_message_service}
use pact_go.Dsl.Client.Pipes.{launch, read_pipes}
use pact_go.Types.MessageRequest.{PactMessageRequest, validate_message}
use pact_go.Dsl.Client.{PactClient, connected, refused, Host, wait_for_port, poll}
use pact_go.Dsl.Client.Address.{ParsedUrl, get_port, get_address}
use pact_go.Dsl.Client.Address.RoundTrip.{get_port-itoa}
use pact_go.Dsl.Client.Servers.{list_servers}
use pact_go.Dsl.Client.Servers.Registered.{servers_at_pids, list_servers-registered}
use pact_go.Dsl.Client.Verifier.{
  Scanner, verify_provider, collect, is_result, verify_valid, run_verifier, read_results,
}
use pact_go.Dsl.Client.MessageTool.{
  update_message_pact, update_valid, run_message, behind_launch, behind_output,
}
use pact_go.Tests.Manager.{idle, leaving, run}

abbrev pub Log : Type 0
Log = List ℕ

abbrev pub client : PactClient
client = record {
  pact_mock_svc_manager = leaving;
  verification_svc_manager = idle;
  message_svc_manager = idle;
  publish_svc_manager = idle;
  network = [];
  address = [];
  timeout_duration = 10000;
}

abbrev provider_url : ParsedUrl
provider_url = record {
  scheme = bytes "http";
  host = bytes "localhost" ++ b':' ∷ itoa 8080;
  path = [];
  hostname = bytes "localhost";
  port = itoa 8080;
}

abbrev pub parse : Text → Result ParsedUrl
parse [] = err (bytes "empty url")
parse (c ∷ s) = ok provider_url

localhost_plain : LacksByte b':' (bytes "localhost")
unfolding bytes
localhost_plain = (
  λ e. absurd (omega (arith, e)),
  (
    λ e. absurd (omega (arith, e)),
    (
      λ e. absurd (omega (arith, e)),
      (
        λ e. absurd (omega (arith, e)),
        (
          λ e. absurd (omega (arith, e)),
          (
            λ e. absurd (omega (arith, e)),
            (
              λ e. absurd (omega (arith, e)),
              (λ e. absurd (omega (arith, e)), (λ e. absurd (omega (arith, e)), tt)),
            ),
          ),
        ),
      ),
    ),
  ),
)

get_port-itoa_example :
    (get_port parse (b'h' ∷ []) ≡ pos 8080) × (get_address parse (b'h' ∷ []) ≡ bytes "localhost")
get_port-itoa_example =
    get_port-itoa parse (b'h' ∷ []) (bytes "localhost") provider_url 8080 localhost_plain
      (omega arith) refl refl

list_servers-registered_example :
    list_servers client ≡ returns (servers_at_pids leaving.process_map)
list_servers-registered_example = list_servers-registered client idle run

abbrev pub host : Host Log
host = record {
  environ = bytes "HOME=/root" ∷ [];
  stdout_pipe = λ c. none;
  stderr_pipe = λ c. none;
  spawn = λ c w. (1 ∷ w, ok 72);
  read_stdout = λ c w. (2 ∷ w, ok (bytes "{}"));
  read_stderr = λ c w. (3 ∷ w, ok []);
  wait = λ c w. (4 ∷ w, none);
  polls = λ port network address timeout w. (5 ∷ w, refused connected);
  show_duration = λ timeout. bytes "10s";
}

abbrev pub scanner : Scanner Log
scanner = record {
  scan_stdout = λ c w. bytes "INFO: reading" ∷ bytes "{}" ∷ [];
  scan_stderr = λ c w. [];
}

abbrev pub decode : Text → Text → Text × Option Error
decode v response = (v, none)

abbrev pub marshal_tag : ConsumerVersionSelector → Result Text
marshal_tag c = ok c.tag

abbrev pub format : Text → Text
format t = t

abbrev pub request : VerifyRequest Log Text ℕ
request = record {
  provider_base_url = bytes "http://localhost:8080";
  pact_urls = bytes "pact.json" ∷ [];
  broker_url = [];
  consumer_version_selectors = [];
  tags = [];
  provider_tags = [];
  provider_states_setup_url = [];
  provider = [];
  broker_username = [];
  broker_password = [];
  broker_token = [];
  fail_if_no_pacts_found = false;
  publish_verification_results = false;
  provider_version = [];
  custom_provider_headers = [];
  state_handlers = [];
  before_each = none;
  after_each = none;
  request_filter = none;
  custom_tls_config = none;
  enable_pending = false;
  include_wip_pacts_since = none;
  pact_log_dir = [];
  pact_log_level = [];
  verbose = false;
  args = [];
}

abbrev verified_client : PactClient
verified_client = record client {
  verification_svc_manager =
      new_verification_service host.environ (validate format marshal_tag request).0.args idle;
}

verified :
    verify_provider host scanner [] decode parse format marshal_tag client request []
    ≡ (verified_client, 4 ∷ 1 ∷ 5 ∷ [], bytes "{}" ∷ [], none)
unfolding verify_provider verify_valid run_verifier read_results collect is_result launch
    wait_for_port poll unless_failed validate validate_args validate_broker validate_options
    add_selectors add_each add done ◌>>◌ fail_if trim_space has_prefix bytes
verified = refl

abbrev message_request : PactMessageRequest ℕ
message_request = record {
  message = 7;
  consumer = bytes "web";
  provider = bytes "users";
  pact_dir = bytes "/work/pacts";
  args = [];
}

abbrev marshal : ℕ → Result Text
marshal n = ok (itoa n)

abbrev updated_client : PactClient
updated_client = record client {
  message_svc_manager = new_message_service (validate_message marshal message_request).0.args idle;
}

updated :
    update_message_pact host marshal client message_request []
    ≡ (updated_client, 4 ∷ 3 ∷ 2 ∷ 1 ∷ [], none)
unfolding update_message_pact update_valid run_message behind_launch behind_output read_pipes launch
    unless_failed validate_message
updated = refl
