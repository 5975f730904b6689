-- ===== src/Dsl/Messages/Provider/Expected.antt =====
-- dsl/pact.go: what `VerifyMessageProviderRaw` is to ask of the client.
use pact_go.Common.{ℕ, Text, returns, false, none, []}
use pact_go.Http.{Handler}
use pact_go.Types.VerifyRequest.{VerifyRequest}
use pact_go.Dsl.Verifying.Expected.{url_of}
use pact_go.Dsl.Messages.{message_verification_handler}
use pact_go.Dsl.Messages.Request.{VerifyMessageRequest}
use pact_go.Dsl.Messages.Provider.{Messaging}

-- A request that says nothing.
abbrev pub blank_request : {W Time TlsConfig : Type 0} → VerifyRequest W Time TlsConfig
blank_request = record {
  provider_base_url = [];
  pact_urls = [];
  broker_url = [];
  consumer_version_selectors = [];
  tags = [];
  provider_tags = [];
  provider_states_setup_url = [];
  provider = [];
  broker_username = [];
  broker_password = [];
  broker_token = [];
  fail_if_no_pacts_found = false;
  publish_verification_results = false;
  provider_version = [];
  custom_provider_headers = [];
  state_handlers = [];
  before_each = none;
  after_each = none;
  request_filter = none;
  custom_tls_config = none;
  enable_pending = false;
  include_wip_pacts_since = none;
  pact_log_dir = [];
  pact_log_level = [];
  verbose = false;
  args = [];
}

-- The pacts, the broker, the tags, the selectors and the versions of the caller, for the provider with
-- this name at the URL of the port, and nothing else.
abbrev pub asked_messages :
    {W Value Float Time TlsConfig : Type 0}
    → ℕ
    → Text
    → VerifyMessageRequest W Value Float
    → VerifyRequest W Time TlsConfig
asked_messages port provider request = record blank_request {
  provider_base_url = url_of port;
  provider = provider;
  pact_urls = request.pact_urls;
  broker_url = request.broker_url;
  broker_username = request.broker_username;
  broker_password = request.broker_password;
  broker_token = request.broker_token;
  consumer_version_selectors = request.consumer_version_selectors;
  tags = request.tags;
  provider_tags = request.provider_tags;
  publish_verification_results = request.publish_verification_results;
  provider_version = request.provider_version;
}

-- Every request is answered by the handlers of the caller, from what is read of its body.
abbrev pub asked_handler :
    {W Value Float : Type 0}
    → Messaging W Value Float
    → VerifyMessageRequest W Value Float
    → Handler W
asked_handler messaging request r w =
    let answered =
      message_verification_handler messaging.unmarshal messaging.marshal request.message_handlers
        request.state_handlers (messaging.read r.body) w in
    returns (messaging.write answered.1 answered.0)
