-- ===== src/Dsl/Messages/Provider.antt =====
-- dsl/pact.go `VerifyMessageProviderRaw`: the verification of a message provider.
pub mod Expected
pub mod Outcomes
pub mod Composed
use pact_go.Common.{
  ℕ, Text, bytes, Error, Result, ok, err, Outcome, returns, panics, ◌>>=◌, false, Option, none,
  some, List, [], ◌∷◌, ◌++◌,
}
use pact_go.Utils.Decimal.{itoa}
use pact_go.Http.{HttpRequest, Handler}
use pact_go.Types.VerifyRequest.{VerifyRequest}
use pact_go.Dsl.Pact.{Pact, System, setup}
use pact_go.Dsl.Messages.{Answer, Message, message_verification_handler}
use pact_go.Dsl.Messages.Request.{VerifyMessageRequest}
use pact_go.Dsl.Verifying.{Verification, local_url, call_client}

abbrev pub message_proxy : ℕ → Text
message_proxy port =
    bytes "Timed out waiting for pact proxy on port " ++ itoa port ++ bytes " - check for errors"

-- The request to the client, with the name of the provider in the `Pact`.
unfoldable pub message_request :
    {W Value Float Time TlsConfig : Type 0}
    → ℕ
    → Text
    → VerifyMessageRequest W Value Float
    → VerifyRequest W Time TlsConfig
message_request port provider request = record {
  provider_base_url = local_url port;
  pact_urls = request.pact_urls;
  broker_url = request.broker_url;
  consumer_version_selectors = request.consumer_version_selectors;
  tags = request.tags;
  provider_tags = request.provider_tags;
  provider_states_setup_url = [];
  provider = provider;
  broker_username = request.broker_username;
  broker_password = request.broker_password;
  broker_token = request.broker_token;
  fail_if_no_pacts_found = false;
  publish_verification_results = request.publish_verification_results;
  provider_version = request.provider_version;
  custom_provider_headers = [];
  state_handlers = [];
  before_each = none;
  after_each = none;
  request_filter = none;
  custom_tls_config = none;
  enable_pending = false;
  include_wip_pacts_since = none;
  pact_log_dir = [];
  pact_log_level = [];
  verbose = false;
  args = [];
}

-- `listen` is `net.Listen` on a port, `read` is `ioutil.ReadAll` of a body, and `write` writes an
-- answer; `unmarshal` and `marshal` are as in the handler.
pub record Messaging (W Value Float : Type 0) : Type 0 where
  pub listen : ℕ → Option Error
  pub read : Text → Result Text
  pub write : Answer → W → W
  pub unmarshal : Text → Result (Message Value Float)
  pub marshal : Option Value → Result Text

module _ {W Value Float : Type 0} (messaging : Messaging W Value Float) where
  -- The handler of every path.
  unfoldable pub mux : VerifyMessageRequest W Value Float → Handler W
  mux request r w =
      let (w', answer) =
        message_verification_handler messaging.unmarshal messaging.marshal request.message_handlers
          request.state_handlers (messaging.read r.body) w in
      returns (messaging.write answer w')

  module _ {Client Interaction Pending Time TlsConfig Response : Type 0}
      (tools : Verification W Client Time TlsConfig Response) where
    -- Behind the wait for the port: `log.Fatal` ends the process.
    unfoldable pub behind_wait :
        ℕ
        → Pact Client Interaction Pending
        → VerifyMessageRequest W Value Float
        → W × Option Error
        → Outcome (Pact Client Interaction Pending × W × List Response × Option Error)
    behind_wait port p request (w, some e) = panics
    behind_wait port p request (w, none) =
        call_client tools p.pact_client p (message_request port p.provider request) w

    -- Behind the listening on the port.
    unfoldable pub behind_listen :
        ℕ
        → Option Error
        → Pact Client Interaction Pending
        → VerifyMessageRequest W Value Float
        → W
        → Outcome (Pact Client Interaction Pending × W × List Response × Option Error)
    behind_listen port (some e) p request w = panics
    behind_listen port none p request w = behind_wait port p request (
        tools.wait_for_port port p.client_timeout (message_proxy port)
          (tools.serve port (mux request) w))

    -- Behind the choice of the port.
    unfoldable pub behind_port :
        Result ℕ
        → Pact Client Interaction Pending
        → VerifyMessageRequest W Value Float
        → W
        → Outcome (Pact Client Interaction Pending × W × List Response × Option Error)
    behind_port (err e) p request w =
        returns (p, w, [], some (bytes "unable to allocate a port for verification: " ++ e))
    behind_port (ok port) p request w = behind_listen port (messaging.listen port) p request w

    unfoldable pub verify_message_provider_raw :
        System W Client
        → Pact Client Interaction Pending
        → VerifyMessageRequest W Value Float
        → W
        → Outcome (Pact Client Interaction Pending × W × List Response × Option Error)
    verify_message_provider_raw sys p request w = do
      (p', w') ← setup sys false p w
      behind_port tools.free_port p' request w'
