-- ===== src/Dsl/Verifying/Expected.antt =====
-- dsl/pact.go: what `VerifyProviderRaw` is to ask of the client, and where its proxy is to lead.
use pact_go.Common.{ℕ, Text, bytes, is_empty, not, ◌&&◌, Option, none, [], ◌∷◌, ◌++◌, if◌then◌else◌}
use pact_go.Common.Lists.{is_nil}
use pact_go.Utils.Decimal.{itoa}
use pact_go.Types.VerifyRequest.{VerifyRequest}
use pact_go.Proxy.{Options}
use pact_go.Dsl.Hooks.{ProviderState, verification_middleware}
use pact_go.Dsl.Client.Address.{ParsedUrl}

-- The URL of a port of this host.
abbrev pub url_of : ℕ → Text
url_of port = bytes "http://localhost:" ++ itoa port

module _ {W Time TlsConfig : Type 0} where
  -- The request of the caller to the URL of the port, without the hooks and the TLS settings, which are
  -- those of the proxy. Its name of the provider is the given one unless it has one, and its URL for
  -- states is one of the port if it has state handlers and no such URL.
  abbrev pub asked_request :
      ℕ → Text → VerifyRequest W Time TlsConfig → VerifyRequest W Time TlsConfig
  asked_request port provider request = record request {
    provider_base_url = url_of port;
    provider_states_setup_url =
        if is_empty request.provider_states_setup_url && not (is_nil request.state_handlers)
        then url_of port ++ bytes "/__setup"
        else request.provider_states_setup_url;
    provider = if is_empty request.provider then provider else request.provider;
    state_handlers = [];
    before_each = none;
    after_each = none;
    request_filter = none;
    custom_tls_config = none;
    args = [];
  }

  -- A proxy on any free port to the scheme, host, port and path of a URL, with the hooks of the request
  -- in its middleware, its TLS settings, and the path of the states kept for itself.
  abbrev pub asked_options :
      (ℕ → W → W)
      → (Text → Option ProviderState)
      → ParsedUrl
      → VerifyRequest W Time TlsConfig
      → Options W TlsConfig
  asked_options write_header decode u request = record {
    target_scheme = u.scheme;
    target_address = u.hostname ++ b':' ∷ u.port;
    target_path = u.path;
    proxy_port = 0;
    middleware = verification_middleware write_header decode request;
    internal_request_path_prefix = bytes "/__setup";
    custom_tls_config = request.custom_tls_config;
  }
