-- ===== src/Dsl/Verifying.antt =====
-- dsl/pact.go `VerifyProviderRaw` and `VerifyMessageProviderRaw`: the proxy, the wait for it and the
-- request to the client. The client is a parameter, as it is an interface in the code.
pub mod Expected
pub mod Requests
pub mod Outcomes
pub mod Determined
pub mod Composed
use pact_go.Common.{
  ℕ, ℤ, pos, Text, bytes, is_empty, Error, Result, ok, err, Outcome, returns, panics, ◌>>=◌, Bool,
  true, false, not, ◌&&◌, Option, none, some, List, [], ◌∷◌, ◌++◌, if◌then◌else◌,
}
use pact_go.Common.Lists.{is_nil}
use pact_go.Utils.Decimal.{itoa}
use pact_go.Http.{Handler, Middleware}
use pact_go.Types.Selector.{ConsumerVersionSelector}
use pact_go.Types.VerifyRequest.{VerifyRequest}
use pact_go.Proxy.{Options, http_reverse_proxy}
use pact_go.Dsl.Hooks.{ProviderState, verification_middleware, provider_states_setup_path}
use pact_go.Dsl.Pact.{Pact, System, setup}
use pact_go.Dsl.Client.Address.{ParsedUrl}

-- `http://localhost:PORT`
abbrev pub local_url : ℕ → Text
local_url port = bytes "http://localhost:" ++ itoa port

-- What the code calls besides: the wait for a port of this host, with its message, the serving of a
-- handler on a port, and the client.
pub record Verification (W Client Time TlsConfig Response : Type 0) : Type 0 where
  pub parse : Text → Result ParsedUrl
  pub transport : Option TlsConfig → Handler W
  pub free_port : Result ℕ
  pub serve : ℕ → Handler W → W → W
  pub wait_for_port : ℕ → ℕ → Text → W → W × Option Error
  pub verify_provider :
      Client → VerifyRequest W Time TlsConfig → W → W × List Response × Option Error

module _ {W Time TlsConfig : Type 0} (write_header : ℕ → W → W)
    (decode : Text → Option ProviderState) where
  abbrev pub proxy_options : ParsedUrl → VerifyRequest W Time TlsConfig → Options W TlsConfig
  proxy_options u request = record {
    target_scheme = u.scheme;
    target_address = u.hostname ++ b':' ∷ u.port;
    target_path = u.path;
    proxy_port = 0;
    middleware = verification_middleware write_header decode request;
    internal_request_path_prefix = provider_states_setup_path;
    custom_tls_config = request.custom_tls_config;
  }

module _ {W Time TlsConfig : Type 0} where
  -- The URL for provider states: that of the request, or that of the proxy if there are handlers.
  abbrev pub setup_url : ℕ → VerifyRequest W Time TlsConfig → Text
  setup_url port request =
      if is_empty request.provider_states_setup_url && not (is_nil request.state_handlers)
      then local_url port ++ provider_states_setup_path
      else request.provider_states_setup_url

  -- The request to the client: `provider` is the name in the `Pact`.
  unfoldable pub verification_request :
      ℕ → Text → VerifyRequest W Time TlsConfig → VerifyRequest W Time TlsConfig
  verification_request port provider request = record {
    provider_base_url = local_url port;
    pact_urls = request.pact_urls;
    broker_url = request.broker_url;
    consumer_version_selectors = request.consumer_version_selectors;
    tags = request.tags;
    provider_tags = request.provider_tags;
    provider_states_setup_url = setup_url port request;
    provider = if is_empty request.provider then provider else request.provider;
    broker_username = request.broker_username;
    broker_password = request.broker_password;
    broker_token = request.broker_token;
    fail_if_no_pacts_found = request.fail_if_no_pacts_found;
    publish_verification_results = request.publish_verification_results;
    provider_version = request.provider_version;
    custom_provider_headers = request.custom_provider_headers;
    state_handlers = [];
    before_each = none;
    after_each = none;
    request_filter = none;
    custom_tls_config = none;
    enable_pending = request.enable_pending;
    include_wip_pacts_since = request.include_wip_pacts_since;
    pact_log_dir = request.pact_log_dir;
    pact_log_level = request.pact_log_level;
    verbose = request.verbose;
    args = [];
  }

abbrev pub proxy_message : ℕ → Text
proxy_message port =
    bytes "Timed out waiting for http verification proxy on port "
    ++ itoa port
    ++ bytes " - check for errors"

module _ {W Client Interaction Message Time TlsConfig Response : Type 0}
    (tools : Verification W Client Time TlsConfig Response) where
  -- The call of the client; a nil client would panic.
  unfoldable pub call_client :
      Option Client
      → Pact Client Interaction Message
      → VerifyRequest W Time TlsConfig
      → W
      → Outcome (Pact Client Interaction Message × W × List Response × Option Error)
  call_client none p request w = panics
  call_client (some c) p request w =
      let (w', response, e) = tools.verify_provider c request w in returns (p, w', response, e)

  -- Behind the wait for the port: `log.Fatal` ends the process.
  unfoldable pub behind_wait :
      Pact Client Interaction Message
      → VerifyRequest W Time TlsConfig
      → W × Option Error
      → Outcome (Pact Client Interaction Message × W × List Response × Option Error)
  behind_wait p request (w, some e) = panics
  behind_wait p request (w, none) = call_client p.pact_client p request w

  unfoldable pub verify_at :
      ℕ
      → Pact Client Interaction Message
      → VerifyRequest W Time TlsConfig
      → W
      → Outcome (Pact Client Interaction Message × W × List Response × Option Error)
  verify_at port p request w =
      behind_wait p (verification_request port p.provider request)
        (tools.wait_for_port port p.client_timeout (proxy_message port) w)

  -- An error of the proxy is dropped, and its port is then 0.
  unfoldable pub behind_proxy :
      Result (ℕ × Handler W)
      → Pact Client Interaction Message
      → VerifyRequest W Time TlsConfig
      → W
      → Outcome (Pact Client Interaction Message × W × List Response × Option Error)
  behind_proxy (err e) p request w = verify_at 0 p request w
  behind_proxy (ok (port, handler)) p request w =
      verify_at port p request (tools.serve port handler w)

  module _ (write_header : ℕ → W → W) (decode : Text → Option ProviderState) where
    unfoldable pub verify_parsed :
        Result ParsedUrl
        → Pact Client Interaction Message
        → VerifyRequest W Time TlsConfig
        → W
        → Outcome (Pact Client Interaction Message × W × List Response × Option Error)
    verify_parsed (err e) p request w = returns (p, w, [], some e)
    verify_parsed (ok u) p request w =
        behind_proxy
          (http_reverse_proxy tools.transport tools.free_port
            (proxy_options write_header decode u request))
          p request w

    unfoldable pub verify_provider_raw :
        System W Client
        → Pact Client Interaction Message
        → VerifyRequest W Time TlsConfig
        → W
        → Outcome (Pact Client Interaction Message × W × List Response × Option Error)
    verify_provider_raw sys p request w = do
      (p', w') ← setup sys false p w
      verify_parsed (tools.parse request.provider_base_url) p' request w'
