-- ===== src/Proxy/Director.antt =====
-- What the reverse proxy of proxy/http.go sends on, and where to.
use pact_go.Common.{
  ℕ, Text, bytes, text_eq_iff, has_prefix, Result, ok, err, true, false, not, ◌==◌, Option, List,
  [], ◌∷◌, ◌++◌, ◌≡◌, ◌⊎◌, refl, sym, ap, ◌∙◌, inl, inr, if◌then◌else◌, arith, Bool-cases,
}
use pact_go.Http.{Url, HttpRequest, Handler, Middleware}
use pact_go.Proxy.{
  Options, logging_middleware, has_header, join_query, director, create_proxy, listen_on,
  proxy_handler, http_reverse_proxy,
}
use pact_go.Proxy.Chain.{nest, chain_handlers-nest}
use pact_go.Proxy.Slash.{trim_last, trim_first, single_joining_slash-trim}

has_header-concat :
    (key value : Text) (header : List (Text × Text))
    → has_header key (header ++ (key, value) ∷ []) ≡ true
unfolding has_header
has_header-concat key value [] = ground (arith, text_eq_iff key key)
has_header-concat key value ((k, v) ∷ header) = ground (arith, has_header-concat key value header)

-- A request that is sent to the provider.
pub record IsForwarded (target : Url) (req out : HttpRequest) : Type 0 where
  pub scheme : out.url.scheme ≡ target.scheme
  pub host : out.url.host ≡ target.host
  pub host_header : out.host ≡ target.host
  pub path : out.url.path ≡ trim_last target.path ++ b'/' ∷ trim_first req.url.path
  pub user_agent : has_header (bytes "User-Agent") out.header ≡ true
  pub kept : has_header (bytes "User-Agent") req.header ≡ true → out.header ≡ req.header
  pub body : out.body ≡ req.body

director_header :
    (header : List (Text × Text))
    → has_header (bytes "User-Agent") (
        if not (has_header (bytes "User-Agent") header)
        then header ++ (bytes "User-Agent", bytes "Pact Go") ∷ []
        else header)
      ≡ true
director_header header = elim (Bool-cases (has_header (bytes "User-Agent") header)) [
  | inl p ↦ rw (p, not) p
  | inr p ↦ rw (p, not) (has_header-concat _ _ header)
]

-- A request whose path does not begin with the internal prefix goes to the target: to its scheme
-- and host, at the target's path joined to the request's by one slash. It has a User-Agent header,
-- its headers are unchanged if it had one, and so is its body.
pub director-IsForwarded :
    (target : Url) (prefix : Text) (req : HttpRequest)
    → has_prefix req.url.path prefix ≡ false
    → IsForwarded target req (director target prefix req)
unfolding director
director-IsForwarded target prefix req outside =
    rw (outside, not)
      (record {
        scheme = refl;
        host = refl;
        host_header = refl;
        path = single_joining_slash-trim target.path req.url.path;
        user_agent = director_header req.header;
        kept = λ given. rw (given, not);
        body = refl;
      })

-- With an empty target query, as the proxy has, no request's query is changed, internal or not; nor
-- is the body.
director_query :
    (target : Url) (prefix : Text) (req : HttpRequest)
    → target.raw_query ≡ []
    → ((director target prefix req).url.raw_query ≡ req.url.raw_query)
      × ((director target prefix req).body ≡ req.body)
unfolding director join_query
director_query target prefix req empty = elim (Bool-cases (has_prefix req.url.path prefix)) [
  | inl p ↦ rw (p, not) (refl, refl)
  | inr p ↦ rw (p, not, empty) (refl, refl)
]

nest-logging :
    {W : Type 0} (mw : List (Middleware W)) (final : Handler W)
    → nest (mw ++ logging_middleware ∷ []) final ≡ nest mw final
unfolding nest logging_middleware
nest-logging [] final = refl
nest-logging (m ∷ mw) final = ap m (nest-logging mw final)

-- Where the proxy of these options sends requests.
abbrev pub target_url : {W TlsConfig : Type 0} → Options W TlsConfig → Url
target_url options = record {
  scheme = options.target_scheme;
  host = options.target_address;
  path = options.target_path;
  raw_query = [];
}

listen_on_inv :
    {W : Type 0} (h : Handler W) (free_port : Result ℕ) (port : ℕ) (h' : Handler W)
    → listen_on h free_port ≡ ok (port, h')
    → (free_port ≡ ok port) × (h ≡ h')
unfolding listen_on
listen_on_inv h (err x) port h' e = absurd (cc)
listen_on_inv h (ok p) port h' e = (cc, cc)

module _ {W TlsConfig : Type 0} (transport : Option TlsConfig → Handler W) where
  proxy_handler_lem :
      (options : Options W TlsConfig)
      → proxy_handler transport options
        ≡ nest options.middleware (
            create_proxy transport
              (target_url options)
              options.internal_request_path_prefix
              options.custom_tls_config)
  unfolding proxy_handler
  proxy_handler_lem options = chain_handlers-nest _ _ ∙ nest-logging options.middleware _

  -- A proxy that starts serves, on the port of the options or else on the free port, the given
  -- middleware in its order around the sending of the rewritten request; logging adds nothing.
  pub http_reverse_proxy-serves :
      (free_port : Result ℕ) (options : Options W TlsConfig) (port : ℕ) (h : Handler W)
      → http_reverse_proxy transport free_port options ≡ ok (port, h)
      → ((port ≡ options.proxy_port) ⊎ ((options.proxy_port ≡ 0) × (free_port ≡ ok port)))
        × (h
            ≡ nest options.middleware (
                create_proxy transport
                  (target_url options)
                  options.internal_request_path_prefix
                  options.custom_tls_config))
  unfolding http_reverse_proxy
  http_reverse_proxy-serves free_port options port h e =
      elim (Bool-cases (options.proxy_port == 0)) [
        | inl asked ↦
            let (found, same) = listen_on_inv _ free_port port h (rw asked at e) in
            (inr (ground arith, found), sym same ∙ proxy_handler_lem options)
        | inr named ↦ let e' = rw named at e in (inl (cc), (cc (proxy_handler_lem options)))
      ]
