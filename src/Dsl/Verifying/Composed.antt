-- ===== src/Dsl/Verifying/Composed.antt =====
-- `VerifyProviderRaw` of dsl/pact.go with the client of dsl/client.go.
use pact_go.Common.{
  pos, ok, ◌↔◌, bytes, ℕ, Text, Error, Result, Outcome, returns, returns_inj, Option, none, some,
  List, ◌≡◌, ◌∙◌,
}
use pact_go.Types.Selector.{ConsumerVersionSelector}
use pact_go.Types.VerifyRequest.{VerifyRequest}
use pact_go.Dsl.Hooks.{ProviderState}
use pact_go.Dsl.Pact.{Pact, System}
use pact_go.Dsl.Pact.Setup.{ToolsPass}
use pact_go.Dsl.Client.{PactClient, Host, wait_for_port}
use pact_go.Dsl.Client.Verifier.{Scanner, verify_provider}
use pact_go.Dsl.Client.Verifier.Accepted.{Verifies, verify_provider_iff}
use pact_go.Dsl.Verifying.{Verification, proxy_message, verify_provider_raw}
use pact_go.Dsl.Verifying.Expected.{asked_request}
use pact_go.Dsl.Verifying.Determined.{Ends-answered}
use pact_go.Dsl.Pact.Ready.{IsConfigured}
use pact_go.Dsl.Client.Address.{ParsedUrl}
use pact_go.Dsl.Verifying.Requests.{IsSourced, asked_request-IsComplete}
use pact_go.Dsl.Verifying.Outcomes.{
  Proxied, Ends, misspelt, unreachable, answered, verify_provider_raw-Ends,
}

module _ {W Client Interaction Message Time TlsConfig Response : Type 0}
    (tools : Verification W Client Time TlsConfig Response) (write_header : ℕ → W → W)
    (decode_state : Text → Option ProviderState) where
  -- With no error, the URL is parsed, the proxy comes up, and the result is that of the client.
  Ends-inv :
      (c : Client) (q q' : Pact Client Interaction Message)
      (request : VerifyRequest W Time TlsConfig) (w w' : W) (response : List Response)
      (r : Outcome (Pact Client Interaction Message × W × List Response × Option Error))
      → Ends tools write_header decode_state c q request w r
      → r ≡ returns (q', w', response, none)
      → (u : ParsedUrl) × (port : ℕ) × (w₁ : W) × (w₂ : W) × (tools.parse request.provider_base_url
          ≡ ok u)
        × Proxied tools write_header decode_state u request w port w₁
        × (tools.wait_for_port port q.client_timeout (proxy_message port) w₁ ≡ (w₂, none))
        × (tools.verify_provider c (asked_request port q.provider request) w₂
            ≡ (w', response, none))
        × (q ≡ q')
  Ends-inv c q q' request w w' response r (misspelt e parsed) h = absurd (cc)
  Ends-inv c q q' request w w' response r (unreachable u port w₁ w₂ e parsed through late) h =
      absurd (cc)
  Ends-inv c q q' request w w' response r (answered u port w₁ w₂ w₃ rs e parsed through up ran) h =
      let same = returns_inj h in
      (
        u,
        port,
        w₁,
        w₂,
        parsed,
        through,
        up,
        ran ∙ (λ i. ((same i).1, (same i).2, (same i).3)),
        λ i. (same i).0,
      )

module _ {W Time TlsConfig Response : Type 0} (host : Host W) (scanner : Scanner W)
    (zero_response : Response) (decode : Text → Response → Response × Option Error)
    (rfc3339 : Time → Text) (marshal : ConsumerVersionSelector → Result Text)
    (tools : Verification W PactClient Time TlsConfig Response) where
  -- The client and the wait for a port of dsl/client.go. What the client changes of itself is left out: the settings of a service,
  -- which its next run replaces.
  abbrev pub with_client : Verification W PactClient Time TlsConfig Response
  with_client = record tools {
    wait_for_port = λ port timeout message w.
        wait_for_port host (pos port) (bytes "tcp") (bytes "localhost") timeout message w;
    verify_provider = λ c request w.
        let (c', w', response, e) =
          verify_provider host scanner zero_response decode tools.parse rfc3339 marshal c request
            w in
        (w', response, e);
  }

  -- The provider URL is parsed and the proxy to it comes up. The request names pacts or a broker, with
  -- both or neither of the credentials and a provider version if it names a broker. The verifier runs to
  -- its end with no error, run by the client on the request with the URL of the proxy, and the results
  -- are what it prints.
  pub record IsVerified {Interaction Message : Type 0} (write_header : ℕ → W → W)
      (decode_state : Text → Option ProviderState) (c : PactClient)
      (q : Pact PactClient Interaction Message) (request : VerifyRequest W Time TlsConfig)
      (w w' : W) (response : List Response) : Type 0 where
    pub url : ParsedUrl
    pub parsed : tools.parse request.provider_base_url ≡ ok url
    pub port : ℕ
    pub behind_start : W
    pub through : Proxied with_client write_header decode_state url request w port behind_start
    pub reached : W
    pub up :
        with_client.wait_for_port port q.client_timeout (proxy_message port) behind_start
        ≡ (reached, none)
    pub sourced : IsSourced port q.provider request
    pub client : PactClient
    pub verifies :
        Verifies host scanner zero_response decode tools.parse rfc3339 marshal c
          (asked_request port q.provider request)
          reached
          client
          w'
          response

  module _ {Interaction Message : Type 0} (write_header : ℕ → W → W)
      (decode_state : Text → Option ProviderState) (c : PactClient)
      (q : Pact PactClient Interaction Message) (request : VerifyRequest W Time TlsConfig)
      (w w' : W) (response : List Response)
      (r : Outcome (Pact PactClient Interaction Message × W × List Response × Option Error))
      (ends : Ends with_client write_header decode_state c q request w r) where
    Ends-IsVerified :
        (q' : Pact PactClient Interaction Message)
        → r ≡ returns (q', w', response, none)
        → (q ≡ q') × IsVerified write_header decode_state c q request w w' response
    Ends-IsVerified q' h =
        let (u, port, w₁, w₂, parsed, through, up, ran, same) =
          Ends-inv with_client write_header decode_state c q q' request w w' response r ends h in
        let sent = asked_request port q.provider request in
        let result =
          verify_provider host scanner zero_response decode tools.parse rfc3339 marshal c sent w₂ in
        let verifies =
          (verify_provider_iff host scanner zero_response decode tools.parse rfc3339 marshal c
              result.0 sent w₂ w' response).0
            (λ i. (result.0, (ran i).0, (ran i).1, (ran i).2)) in
        (
          same,
          record {
            url = u;
            parsed = parsed;
            port = port;
            behind_start = w₁;
            through = through;
            reached = w₂;
            up = up;
            sourced = (asked_request-IsComplete port q.provider request).0 verifies.complete;
            client = result.0;
            verifies = verifies;
          },
        )

    IsVerified-Ends :
        IsVerified write_header decode_state c q request w w' response
        → r ≡ returns (q, w', response, none)
    IsVerified-Ends v =
        let ran =
          (verify_provider_iff host scanner zero_response decode tools.parse rfc3339 marshal c
              v.client (asked_request v.port q.provider request) v.reached w' response).1
            v.verifies in
        Ends-answered with_client write_header decode_state c q request w v.url v.port
          v.behind_start v.reached w' response none r v.parsed v.through v.up
          (λ i. ((ran i).1, (ran i).2, (ran i).3)) ends

  -- If the tools are not to be checked or the check finds no fault, `VerifyProviderRaw`, with the
  -- client of the library and the `Pact` configured, returns no error exactly if the provider URL is
  -- parsed, the proxy to it comes up, the request names pacts or a broker, with both or neither of the
  -- credentials and a provider version if it names a broker, and the verifier, run by the client of
  -- the `Pact` on the request with the URL of the proxy, runs to its end with no error. The results
  -- are what it prints.
  pub verify_provider_raw-Verifies :
      {Interaction Message : Type 0} (write_header : ℕ → W → W)
      (decode_state : Text → Option ProviderState) (sys : System W PactClient)
      (p : Pact PactClient Interaction Message) (request : VerifyRequest W Time TlsConfig) (w : W)
      → ToolsPass sys p w
      → (c : PactClient) × (q : Pact PactClient Interaction Message) × (w₁ : W) × IsConfigured sys p
          q
        × (q.pact_client ≡ some c)
        × ((q' : Pact PactClient Interaction Message) (w' : W) (response : List Response)
            → (verify_provider_raw with_client write_header decode_state sys p request w
                ≡ returns (q', w', response, none))
              ↔ ((q ≡ q') × IsVerified write_header decode_state c q request w₁ w' response))
  verify_provider_raw-Verifies write_header decode_state sys p request w pass =
      let (c, q, w₁, config, given, ends) =
        verify_provider_raw-Ends with_client write_header decode_state sys p request w pass in
      (
        c,
        q,
        w₁,
        config,
        given,
        λ q' w' response. (
          Ends-IsVerified write_header decode_state c q request w₁ w' response _ ends q',
          λ (same, v).
              IsVerified-Ends write_header decode_state c q request w₁ w' response _ ends v
              ∙ (λ i. returns (same i, w', response, none)),
        ),
      )
