-- ===== src/Tests/Provider.antt =====
-- The proxy and the hooks of a provider verification on concrete requests. The world is the list of
-- what happened, the latest first.
use pact_go.Common.{
  ℕ, Text, bytes, has_prefix, has_suffix, Result, ok, returns, ◌>>=◌, true, false, Option, none,
  some, List, [], ◌∷◌, ◌++◌, ◌≡◌, ◌⊎◌, refl, text_eq,
}
use pact_go.Http.{Url, HttpRequest, Handler, Middleware, Hook}
use pact_go.Types.VerifyRequest.{VerifyRequest}
use pact_go.Proxy.{
  Options, single_joining_slash, chain_handlers, director, create_proxy, http_reverse_proxy,
  proxy_handler, chain_loop, logging_middleware,
}
use pact_go.Proxy.Chain.{nest}
use pact_go.Proxy.Slash.{trim_last, trim_first, single_joining_slash-trim}
use pact_go.Proxy.Director.{
  IsForwarded, director-IsForwarded, target_url, http_reverse_proxy-serves,
}
use pact_go.Dsl.Hooks.{
  ProviderState, is_setup, serve_setup, serve_states, find_handler, verification_middleware,
  provider_states_setup_path,
}
use pact_go.Dsl.Hooks.States.{Served, serve_states-Served}
use pact_go.Dsl.Hooks.Order.{after_hook, filtered, nest_setup, nest_other}

abbrev Log : Type 0
Log = List ℕ

abbrev mark : ℕ → Middleware Log
mark n next r w = next r (n ∷ w)

abbrev provider : Handler Log
provider r w = returns (100 ∷ w)

single_joining_slash-trim_example :
    single_joining_slash (bytes "/api/") (bytes "/users")
    ≡ trim_last (bytes "/api/") ++ b'/' ∷ trim_first (bytes "/users")
single_joining_slash-trim_example = single_joining_slash-trim (bytes "/api/") (bytes "/users")

joined : single_joining_slash (bytes "/api/") (bytes "/users") ≡ bytes "/api/users"
unfolding single_joining_slash has_prefix has_suffix bytes
joined = refl

abbrev target : Url
target = record {
  scheme = bytes "https";
  host = bytes "provider:8443";
  path = bytes "/api/";
  raw_query = [];
}

abbrev request_to : Text → HttpRequest
request_to path = record {
  url = record { scheme = []; host = []; path = path; raw_query = bytes "a=1" };
  host = bytes "localhost";
  header = [];
  body = [];
}

users_outside : has_prefix (bytes "/users") (bytes "/__setup") ≡ false
unfolding has_prefix bytes
users_outside = refl

director-IsForwarded_example :
    IsForwarded target
      (request_to (bytes "/users"))
      (director target (bytes "/__setup") (request_to (bytes "/users")))
director-IsForwarded_example =
    director-IsForwarded target (bytes "/__setup") (request_to (bytes "/users")) users_outside

abbrev options : Options Log ℕ
options = record {
  target_scheme = bytes "http";
  target_address = bytes "provider:80";
  target_path = [];
  proxy_port = 8081;
  middleware = mark 1 ∷ [];
  internal_request_path_prefix = bytes "/__setup";
  custom_tls_config = none;
}

abbrev transport : Option ℕ → Handler Log
transport tls = provider

abbrev served : Handler Log
served =
    nest (mark 1 ∷ [])
      (create_proxy transport (target_url options) options.internal_request_path_prefix none)

started : http_reverse_proxy transport (ok 5000) options ≡ ok (8081, served)
unfolding http_reverse_proxy proxy_handler chain_handlers chain_loop logging_middleware nest
started = refl

http_reverse_proxy-serves_example :
    ((◌≡◌ {A = ℕ} 8081 8081) ⊎ ((◌≡◌ {A = ℕ} 8081 0) × (◌≡◌ {A = Result ℕ} (ok 5000) (ok 8081))))
    × (served ≡ served)
http_reverse_proxy-serves_example =
    http_reverse_proxy-serves transport (ok 5000) options 8081 served started

abbrev pub write_header : ℕ → Log → Log
write_header status w = status ∷ w

abbrev hook : ℕ → Hook Log
hook n w = (n ∷ w, none)

abbrev broken : Hook Log
broken w = (9 ∷ w, some (bytes "broken"))

abbrev pub hooked : VerifyRequest Log Text ℕ
hooked = record {
  provider_base_url = bytes "http://localhost:8080";
  pact_urls = bytes "pact.json" ∷ [];
  broker_url = [];
  consumer_version_selectors = [];
  tags = [];
  provider_tags = [];
  provider_states_setup_url = [];
  provider = [];
  broker_username = [];
  broker_password = [];
  broker_token = [];
  fail_if_no_pacts_found = false;
  publish_verification_results = false;
  provider_version = [];
  custom_provider_headers = [];
  state_handlers = (bytes "a", hook 3) ∷ (bytes "b", broken) ∷ [];
  before_each = some (hook 1);
  after_each = some (hook 2);
  request_filter = some (mark 50);
  custom_tls_config = none;
  enable_pending = false;
  include_wip_pacts_since = none;
  pact_log_dir = [];
  pact_log_level = [];
  verbose = false;
  args = [];
}

-- The body names the states by the first byte of each.
abbrev pub decode : Text → Option ProviderState
decode [] = none
decode (c ∷ s) = some (record { consumer = []; state = []; states = (c ∷ []) ∷ [] })

serve_states-Served_example :
    Served hooked.state_handlers write_header
      (bytes "a" ∷ bytes "b" ∷ [])
      []
      (serve_states write_header hooked.state_handlers (bytes "a" ∷ bytes "b" ∷ []) [])
serve_states-Served_example =
    serve_states-Served hooked.state_handlers write_header (bytes "a" ∷ bytes "b" ∷ []) []

stops_at_b :
    serve_states write_header hooked.state_handlers
      (bytes "c" ∷ bytes "a" ∷ bytes "b" ∷ bytes "a" ∷ [])
      []
    ≡ 500 ∷ 9 ∷ 3 ∷ []
unfolding serve_states find_handler text_eq bytes
stops_at_b = refl

setup_path : is_setup (request_to (bytes "/__setup")) ≡ true
unfolding text_eq provider_states_setup_path bytes
setup_path = refl

users_path : is_setup (request_to (bytes "/users")) ≡ false
unfolding text_eq provider_states_setup_path bytes
users_path = refl

nest_setup_example :
    nest
      (verification_middleware write_header decode hooked)
      provider
      (request_to (bytes "/__setup"))
      []
    ≡ serve_setup write_header
        (decode [])
        hooked.state_handlers
        (after_hook write_header hooked.before_each [])
nest_setup_example =
    nest_setup write_header decode (request_to (bytes "/__setup")) hooked provider [] setup_path
      (cc)

nest_other_example :
    nest
      (verification_middleware write_header decode hooked)
      provider
      (request_to (bytes "/users"))
      []
    ≡ (filtered hooked.request_filter provider (request_to (bytes "/users")) [] >>= λ w'.
        returns (after_hook write_header hooked.after_each w'))
nest_other_example =
    nest_other write_header decode (request_to (bytes "/users")) hooked provider [] users_path
