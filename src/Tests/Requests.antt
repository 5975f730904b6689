-- ===== src/Tests/Requests.antt =====
-- The `Validate` methods of types/ on concrete requests.
use pact_go.Common.{ℕ, Text, bytes, Result, ok, true, false, none, List, [], ◌∷◌, ◌≡◌, ◌↔◌, refl}
use pact_go.Types.Selector.{
  ConsumerVersionSelector, IsValid, selector_validate_iff, add_selector, add_selectors,
}
use pact_go.Types.Selector
use pact_go.Types.Args.{add, add_each, fail_if, done, ◌>>◌}
use pact_go.Types.VerifyRequest.{VerifyRequest, validate_args, validate_broker, validate_options}
use pact_go.Types.VerifyRequest
use pact_go.Types.VerifyRequest.Complete.{IsComplete}
use pact_go.Types.VerifyRequest.CommandLine.{Accepts, verify_validate_iff}
use pact_go.Types.PublishRequest.{PublishRequest}

abbrev master : ConsumerVersionSelector
master = record {
  pacticipant = bytes "billy";
  tag = bytes "master";
  version = [];
  latest = true;
  all = false;
}

abbrev marshal_tag : ConsumerVersionSelector → Result Text
marshal_tag c = ok c.tag

abbrev format : Text → Text
format t = t

abbrev broker_request : VerifyRequest ℕ Text ℕ
broker_request = record {
  provider_base_url = bytes "http://localhost:8080";
  pact_urls = [];
  broker_url = bytes "http://broker";
  consumer_version_selectors = master ∷ [];
  tags = bytes "dev" ∷ [];
  provider_tags = [];
  provider_states_setup_url = [];
  provider = bytes "bobby";
  broker_username = [];
  broker_password = [];
  broker_token = bytes "t0k3n";
  fail_if_no_pacts_found = false;
  publish_verification_results = true;
  provider_version = bytes "1.0.0";
  custom_provider_headers = [];
  state_handlers = [];
  before_each = none;
  after_each = none;
  request_filter = none;
  custom_tls_config = none;
  enable_pending = false;
  include_wip_pacts_since = none;
  pact_log_dir = [];
  pact_log_level = [];
  verbose = false;
  args = bytes "stale" ∷ [];
}

abbrev broker_args : List Text
broker_args =
    bytes "--consumer-version-selector"
    ∷ bytes "master"
    ∷ bytes "--format"
    ∷ bytes "json"
    ∷ bytes "--provider-base-url"
    ∷ bytes "http://localhost:8080"
    ∷ bytes "--pact-broker-base-url"
    ∷ bytes "http://broker"
    ∷ bytes "--broker-token"
    ∷ bytes "t0k3n"
    ∷ bytes "--provider_app_version"
    ∷ bytes "1.0.0"
    ∷ bytes "--provider"
    ∷ bytes "bobby"
    ∷ bytes "--publish_verification_results"
    ∷ bytes "true"
    ∷ bytes "--consumer-version-tag"
    ∷ bytes "dev"
    ∷ []

verify_validate_iff_example :
    (VerifyRequest.validate format marshal_tag broker_request
      ≡ (record broker_request { args = broker_args }, none))
    ↔ (IsComplete broker_request × Accepts format marshal_tag broker_request broker_args)
verify_validate_iff_example = verify_validate_iff format marshal_tag broker_request broker_args

broker_request_args :
    VerifyRequest.validate format marshal_tag broker_request
    ≡ (record broker_request { args = broker_args }, none)
unfolding VerifyRequest.validate validate_args validate_broker validate_options Selector.validate
    add_selectors add_selector add add_each fail_if done ◌>>◌ bytes
broker_request_args = refl

abbrev publish_request : PublishRequest
publish_request = record {
  pact_urls = bytes "./pacts" ∷ [];
  pact_broker = bytes "http://broker";
  broker_username = bytes "user";
  broker_password = [];
  broker_token = [];
  consumer_version = bytes "1";
  tags = [];
  verbose = false;
  args = [];
}
