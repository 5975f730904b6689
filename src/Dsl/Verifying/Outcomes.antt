-- ===== src/Dsl/Verifying/Outcomes.antt =====
-- How `VerifyProviderRaw` of dsl/pact.go ends.
use pact_go.Common.{
  given-some, ℕ, Text, Error, Result, ok, err, Outcome, returns, panics, Option, none, some, List,
  [], ◌≡◌, refl, sym, ap,
}
use pact_go.Http.{Handler}
use pact_go.Types.VerifyRequest.{VerifyRequest}
use pact_go.Proxy.{http_reverse_proxy}
use pact_go.Dsl.Hooks.{ProviderState, provider_states_setup_path}
use pact_go.Dsl.Pact.{Pact, System}
use pact_go.Dsl.Pact.Setup.{ToolsPass, setup_only_returns}
use pact_go.Dsl.Pact.Ready.{IsConfigured, setup_only-IsConfigured}
use pact_go.Dsl.Client.Address.{ParsedUrl}
use pact_go.Dsl.Verifying.{
  Verification, verification_request, proxy_message, call_client, behind_wait, verify_at,
  behind_proxy, verify_parsed, verify_provider_raw,
}
use pact_go.Dsl.Verifying.Expected.{asked_request, asked_options}

module _ {W Client Time TlsConfig Response : Type 0}
    (tools : Verification W Client Time TlsConfig Response) (write_header : ℕ → W → W)
    (decode : Text → Option ProviderState) where
  -- The port that is waited for, and the world behind the start of the proxy on it: a proxy that does
  -- not start leaves port 0.
  pub data Proxied (u : ParsedUrl) (request : VerifyRequest W Time TlsConfig) (w : W)
      : ℕ → W → Type 0 where
    proxied :
        (port : ℕ) (handler : Handler W)
        → http_reverse_proxy tools.transport tools.free_port
            (asked_options write_header decode u request)
          ≡ ok (port, handler)
        → Proxied u request w port (tools.serve port handler w)
    portless :
        (e : Error)
        → http_reverse_proxy tools.transport tools.free_port
            (asked_options write_header decode u request)
          ≡ err e
        → Proxied u request w 0 w

module _ {W Client Interaction Message Time TlsConfig Response : Type 0}
    (tools : Verification W Client Time TlsConfig Response) (write_header : ℕ → W → W)
    (decode : Text → Option ProviderState) where
  -- The result, with the client `c` and the `Pact` that are set up.
  pub data Ends (c : Client) (q : Pact Client Interaction Message)
      (request : VerifyRequest W Time TlsConfig) (w : W)
      : Outcome (Pact Client Interaction Message × W × List Response × Option Error) → Type 0 where
    misspelt :
        (e : Error)
        → tools.parse request.provider_base_url ≡ err e
        → Ends c q request w (returns (q, w, [], some e))
    unreachable :
        (u : ParsedUrl) (port : ℕ) (w₁ w₂ : W) (e : Error)
        → tools.parse request.provider_base_url ≡ ok u
        → Proxied tools write_header decode u request w port w₁
        → tools.wait_for_port port q.client_timeout (proxy_message port) w₁ ≡ (w₂, some e)
        → Ends c q request w panics
    answered :
        (u : ParsedUrl) (port : ℕ) (w₁ w₂ w₃ : W) (response : List Response) (e : Option Error)
        → tools.parse request.provider_base_url ≡ ok u
        → Proxied tools write_header decode u request w port w₁
        → tools.wait_for_port port q.client_timeout (proxy_message port) w₁ ≡ (w₂, none)
        → tools.verify_provider c (asked_request port q.provider request) w₂ ≡ (w₃, response, e)
        → Ends c q request w (returns (q, w₃, response, e))

  module _ (c : Client) (q : Pact Client Interaction Message) (given : q.pact_client ≡ some c)
      (request : VerifyRequest W Time TlsConfig) (w : W) where
    module _ (u : ParsedUrl) (parsed : tools.parse request.provider_base_url ≡ ok u) where
      call_client-Ends :
          (client : Option Client) (port : ℕ) (w₁ w₂ : W)
          → client ≡ some c
          → Proxied tools write_header decode u request w port w₁
          → tools.wait_for_port port q.client_timeout (proxy_message port) w₁ ≡ (w₂, none)
          → Ends c q request w
              (call_client tools client q (verification_request port q.provider request) w₂)
      unfolding call_client verification_request provider_states_setup_path
      call_client-Ends none port w₁ w₂ same through up = absurd (cc)
      call_client-Ends (some d) port w₁ w₂ same through up =
          let same_client : d ≡ c =
            ap (λ (o : Option Client). elim o [ some x ↦ x | none ↦ c ]) same in
          answered u port w₁ w₂ _ _ _ parsed through up (λ i.
            tools.verify_provider (sym same_client i) (asked_request port q.provider request) w₂)

      behind_wait-Ends :
          (port : ℕ) (w₁ : W) (r : W × Option Error)
          → Proxied tools write_header decode u request w port w₁
          → tools.wait_for_port port q.client_timeout (proxy_message port) w₁ ≡ r
          → Ends c q request w
              (behind_wait tools q (verification_request port q.provider request) r)
      unfolding behind_wait
      behind_wait-Ends port w₁ (w₂, some e) through waited =
          unreachable u port w₁ w₂ e parsed through waited
      behind_wait-Ends port w₁ (w₂, none) through waited =
          call_client-Ends q.pact_client port w₁ w₂ given through waited

      behind_proxy-Ends :
          (r : Result (ℕ × Handler W))
          → http_reverse_proxy tools.transport tools.free_port
              (asked_options write_header decode u request)
            ≡ r
          → Ends c q request w (behind_proxy tools r q request w)
      unfolding behind_proxy verify_at provider_states_setup_path
      behind_proxy-Ends (err e) started = behind_wait-Ends 0 w _ (portless e started) refl
      behind_proxy-Ends (ok (port, handler)) started =
          behind_wait-Ends port (tools.serve port handler w) _ (proxied port handler started) refl

    verify_parsed-Ends :
        (r : Result ParsedUrl)
        → tools.parse request.provider_base_url ≡ r
        → Ends c q request w (verify_parsed tools write_header decode r q request w)
    unfolding verify_parsed provider_states_setup_path
    verify_parsed-Ends (err e) parsed = misspelt e parsed
    verify_parsed-Ends (ok u) parsed = behind_proxy-Ends u parsed _ refl

  -- If the tools are not to be checked or the check finds no fault, `VerifyProviderRaw` ends with
  -- the `Pact` configured. A provider URL that does not parse is its error. Otherwise a proxy to that
  -- URL, with the hooks of the request in its middleware, is started on a free port, or none if there
  -- is none, and waited for: if it does not come up the process ends, and if it does the result is
  -- that of the client, on the request with the URL of the proxy in place of its own, and without the
  -- hooks.
  pub verify_provider_raw-Ends :
      (sys : System W Client) (p : Pact Client Interaction Message)
      (request : VerifyRequest W Time TlsConfig) (w : W)
      → ToolsPass sys p w
      → (c : Client) × (q : Pact Client Interaction Message) × (w₁ : W) × IsConfigured sys p q
        × (q.pact_client ≡ some c)
        × Ends c q request w₁ (verify_provider_raw tools write_header decode sys p request w)
  unfolding verify_provider_raw
  verify_provider_raw-Ends sys p request w pass =
      let (q, w₁, prepared) = setup_only_returns sys p w pass in
      let config = setup_only-IsConfigured sys p q w w₁ prepared in
      let (c, given) = given-some q.pact_client config.client in
      (c, q, w₁, config, given, rw prepared (verify_parsed-Ends c q given request w₁ _ refl))
