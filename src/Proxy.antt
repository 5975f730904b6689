-- ===== src/Proxy.antt =====
-- proxy/http.go: the reverse proxy that stands before a provider during a verification. The
-- transport behind the proxy is a parameter: it sends a request and writes the response.
pub mod Slash
pub mod Chain
pub mod Director
pub mod Transport
use pact_go.Common.{
  ℕ, zero, suc, Text, bytes, is_empty, text_eq, has_prefix, has_suffix, Error, Result, ok, err,
  Bool, true, false, not, ◌||◌, ◌==◌, Option, none, some, List, [], ◌∷◌, ◌++◌, if◌then◌else◌,
}
use pact_go.Common.Lists.{length, get_elem?}
use pact_go.Http.{Url, HttpRequest, Handler, Middleware}

pub record Options (W TlsConfig : Type 0) : Type 0 where
  pub target_scheme : Text
  pub target_address : Text
  pub target_path : Text
  pub proxy_port : ℕ
  pub middleware : List (Middleware W)
  pub internal_request_path_prefix : Text
  pub custom_tls_config : Option TlsConfig

-- What it prints is left out.
unfoldable pub logging_middleware : {W : Type 0} → Middleware W
logging_middleware next r w = next r w

-- `for i := len(mw) - 1; i >= 0; i-- { last = mw[i](last) }`, where `i` counts the rounds
-- left. The index is in range in every round.
unfoldable pub chain_loop : {W : Type 0} → List (Middleware W) → ℕ → Handler W → Handler W
chain_loop mw zero last = last
chain_loop mw (suc i) last = elim (get_elem? mw i) [
  | some m ↦ chain_loop mw i (m last)
  | none ↦ chain_loop mw i last
]

unfoldable pub chain_handlers : {W : Type 0} → List (Middleware W) → Middleware W
chain_handlers mw final = chain_loop mw (length mw) final

-- `b[1:]`
abbrev pub tail : Text → Text
tail [] = []
tail (c ∷ s) = s

unfoldable pub single_joining_slash : Text → Text → Text
single_joining_slash a b =
    let aslash = has_suffix a (b'/' ∷ []) in
    let bslash = has_prefix b (b'/' ∷ []) in
    if aslash
    then (if bslash then a ++ tail b else a ++ b)
    else (if bslash then a ++ b else a ++ b'/' ∷ b)

-- `_, ok := req.Header[key]`
unfoldable pub has_header : Text → List (Text × Text) → Bool
has_header key [] = false
has_header key ((k, v) ∷ header) = text_eq k key || has_header key header

unfoldable pub join_query : Text → Text → Text
join_query target_query query =
    if is_empty target_query || is_empty query
    then target_query ++ query
    else target_query ++ b'&' ∷ query

-- The `director` of `createProxy`: what becomes of a request before it is sent.
unfoldable pub director : Url → Text → HttpRequest → HttpRequest
director target ignore_prefix req =
    if not (has_prefix req.url.path ignore_prefix)
    then record req {
      url = record {
        scheme = target.scheme;
        host = target.host;
        path = single_joining_slash target.path req.url.path;
        raw_query = join_query target.raw_query req.url.raw_query;
      };
      host = target.host;
      header =
          if not (has_header (bytes "User-Agent") req.header)
          then req.header ++ (bytes "User-Agent", bytes "Pact Go") ∷ []
          else req.header;
    }
    else record req {
      url = record req.url { scheme = bytes "http"; host = bytes "localhost" };
      host = bytes "localhost";
    }

-- The branch that has asked for a free port.
unfoldable pub listen_on : {W : Type 0} → Handler W → Result ℕ → Result (ℕ × Handler W)
listen_on h (err e) = err e
listen_on h (ok port) = ok (port, h)

module _ {W TlsConfig : Type 0} (transport : Option TlsConfig → Handler W) where
  unfoldable pub create_proxy : Url → Text → Option TlsConfig → Handler W
  create_proxy target ignore_prefix tls r w = transport tls (director target ignore_prefix r) w

  unfoldable pub proxy_handler : Options W TlsConfig → Handler W
  proxy_handler options = chain_handlers (options.middleware ++ logging_middleware ∷ []) (
      create_proxy
        (record {
          scheme = options.target_scheme;
          host = options.target_address;
          path = options.target_path;
          raw_query = [];
        })
        options.internal_request_path_prefix options.custom_tls_config)

  -- The port that the proxy listens on and the handler that it serves there. `free_port` is the
  -- result of `utils.GetFreePort`, which is asked if the options name no port.
  unfoldable pub http_reverse_proxy : Result ℕ → Options W TlsConfig → Result (ℕ × Handler W)
  http_reverse_proxy free_port options =
      if options.proxy_port == 0
      then listen_on (proxy_handler options) free_port
      else ok (options.proxy_port, proxy_handler options)
