-- ===== src/Dsl/Messages/Provider/Composed.antt =====
-- `VerifyMessageProviderRaw` of dsl/pact.go with the client of dsl/client.go.
use pact_go.Common.{
  ok, ◌↔◌, ℕ, Text, Error, Result, Outcome, returns, returns_inj, Option, none, some, List, [], ◌≡◌,
  ◌≢◌, ◌⊎◌, ◌∙◌,
}
use pact_go.Types.Selector.{ConsumerVersionSelector}
use pact_go.Types.VerifyRequest.{VerifyRequest}
use pact_go.Types.VerifyRequest.Complete.{IsComplete}
use pact_go.Dsl.Pact.{Pact, System}
use pact_go.Dsl.Pact.Setup.{ToolsPass}
use pact_go.Dsl.Pact.Ready.{IsConfigured}
use pact_go.Dsl.Client.{PactClient, Host}
use pact_go.Dsl.Client.Verifier.{Scanner, verify_provider}
use pact_go.Dsl.Client.Verifier.Accepted.{Verifies, verify_provider_iff}
use pact_go.Dsl.Verifying.{Verification}
use pact_go.Dsl.Verifying.Composed.{with_client}
use pact_go.Dsl.Verifying.Requests.{url_of-ne-nil}
use pact_go.Dsl.Messages.Request.{VerifyMessageRequest}
use pact_go.Dsl.Messages.Provider.{Messaging, message_proxy, verify_message_provider_raw}
use pact_go.Dsl.Messages.Provider.Expected.{asked_messages, asked_handler}
use pact_go.Dsl.Messages.Provider.Outcomes.{
  Ends, portless, deaf, unreachable, answered, message_provider-Ends,
}

-- The request names pacts or a broker, and with a broker both or neither of the credentials and a
-- provider version.
pub record IsSourced {W Value Float : Type 0} (request : VerifyMessageRequest W Value Float)
    : Type 0 where
  pub source : (request.pact_urls ≢ []) ⊎ (request.broker_url ≢ [])
  pub credentials :
      request.broker_url ≢ [] → (request.broker_username ≡ []) ↔ (request.broker_password ≡ [])
  pub versioned : request.broker_url ≢ [] → request.provider_version ≢ []

-- The request that goes to the client is complete exactly if that of the caller is, whose provider
-- URL is the one that is served.
asked_messages-IsComplete :
    {W Value Float Time TlsConfig : Type 0} (port : ℕ) (provider : Text)
    (request : VerifyMessageRequest W Value Float)
    → (let sent : VerifyRequest W Time TlsConfig = asked_messages port provider request in
        IsComplete sent)
      ↔ IsSourced request
asked_messages-IsComplete port provider request = (
  λ c. record { source = c.source; credentials = c.credentials; versioned = c.versioned },
  λ s. record {
    source = s.source;
    provider = url_of-ne-nil port;
    credentials = s.credentials;
    versioned = s.versioned;
  },
)

module _ {W Value Float Client Interaction Pending Time TlsConfig Response : Type 0}
    (messaging : Messaging W Value Float)
    (tools : Verification W Client Time TlsConfig Response) where
  -- The port is free and listened on, the handler of messages comes up on it, and the client is then
  -- called.
  pub record IsServed (q : Pact Client Interaction Pending)
      (request : VerifyMessageRequest W Value Float) (w : W) (port : ℕ) (reached : W) : Type 0 where
    pub free : tools.free_port ≡ ok port
    pub heard : messaging.listen port ≡ none
    pub up :
        tools.wait_for_port port q.client_timeout
          (message_proxy port)
          (tools.serve port (asked_handler messaging request) w)
        ≡ (reached, none)

  module _ (c : Client) (q : Pact Client Interaction Pending)
      (request : VerifyMessageRequest W Value Float) (w : W) where
    -- With no error, the result is that of the client.
    Ends-inv :
        (q' : Pact Client Interaction Pending) (w' : W) (response : List Response)
        (r : Outcome (Pact Client Interaction Pending × W × List Response × Option Error))
        → Ends messaging tools c q request w r
        → r ≡ returns (q', w', response, none)
        → (port : ℕ) × (reached : W) × IsServed q request w port reached
          × (tools.verify_provider c (asked_messages port q.provider request) reached
              ≡ (w', response, none))
          × (q ≡ q')
    Ends-inv q' w' response r (portless e free) h = absurd (cc)
    Ends-inv q' w' response r (deaf port e free heard) h = absurd (cc)
    Ends-inv q' w' response r (unreachable port w₁ e free heard late) h = absurd (cc)
    Ends-inv q' w' response r (answered port w₁ w₂ rs e free heard up ran) h =
        let same = returns_inj h in
        (
          port,
          w₁,
          record { free = free; heard = heard; up = up },
          ran ∙ (λ i. ((same i).1, (same i).2, (same i).3)),
          λ i. (same i).0,
        )

    -- The handler comes up, and the client gives a result: that is the result.
    Ends-served :
        (port : ℕ) (reached w' : W) (response : List Response) (e : Option Error)
        (r : Outcome (Pact Client Interaction Pending × W × List Response × Option Error))
        → IsServed q request w port reached
        → tools.verify_provider c (asked_messages port q.provider request) reached
          ≡ (w', response, e)
        → Ends messaging tools c q request w r
        → r ≡ returns (q, w', response, e)
    Ends-served port reached w' response e r s ran (portless d free) = absurd (cc (s.free))
    Ends-served port reached w' response e r s ran (deaf n d free heard) =
        absurd (cc (s.free, s.heard))
    Ends-served port reached w' response e r s ran (unreachable n v d free heard late) =
        absurd (cc (s.free, s.up))
    Ends-served port reached w' response e r s ran (answered n v₁ v₂ rs d free heard up ran') =
        cc (s.free, s.up)

module _ {W Value Float Time TlsConfig Response : Type 0} (messaging : Messaging W Value Float)
    (host : Host W) (scanner : Scanner W) (zero_response : Response)
    (decode : Text → Response → Response × Option Error) (rfc3339 : Time → Text)
    (marshal : ConsumerVersionSelector → Result Text)
    (tools : Verification W PactClient Time TlsConfig Response) where
  abbrev pub library : Verification W PactClient Time TlsConfig Response
  library = with_client host scanner zero_response decode rfc3339 marshal tools

  -- The handler of messages comes up on a free port, the request names where its pacts are, and the
  -- verifier, run by the client on the URL of the port, runs to its end with no error and prints these
  -- results.
  pub record IsVerified {Interaction Pending : Type 0} (c : PactClient)
      (q : Pact PactClient Interaction Pending) (request : VerifyMessageRequest W Value Float)
      (w w' : W) (response : List Response) : Type 0 where
    pub port : ℕ
    pub reached : W
    pub served : IsServed messaging library q request w port reached
    pub sourced : IsSourced request
    pub client : PactClient
    pub verifies :
        Verifies {TlsConfig = TlsConfig} host scanner zero_response decode tools.parse rfc3339
          marshal c
          (asked_messages port q.provider request)
          reached
          client
          w'
          response

  module _ {Interaction Pending : Type 0} (c : PactClient) (q : Pact PactClient Interaction Pending)
      (request : VerifyMessageRequest W Value Float) (w w' : W) (response : List Response)
      (r : Outcome (Pact PactClient Interaction Pending × W × List Response × Option Error))
      (ends : Ends messaging library c q request w r) where
    Ends-IsVerified :
        (q' : Pact PactClient Interaction Pending)
        → r ≡ returns (q', w', response, none)
        → (q ≡ q') × IsVerified c q request w w' response
    Ends-IsVerified q' h =
        let (port, reached, served, ran, same) =
          Ends-inv messaging library c q request w q' w' response r ends h in
        let sent : VerifyRequest W Time TlsConfig = asked_messages port q.provider request in
        let result =
          verify_provider host scanner zero_response decode tools.parse rfc3339 marshal c sent
            reached in
        let verifies =
          (verify_provider_iff host scanner zero_response decode tools.parse rfc3339 marshal c
              result.0 sent reached w' response).0
            (λ i. (result.0, (ran i).0, (ran i).1, (ran i).2)) in
        (
          same,
          record {
            port = port;
            reached = reached;
            served = served;
            sourced = (asked_messages-IsComplete port q.provider request).0 verifies.complete;
            client = result.0;
            verifies = verifies;
          },
        )

    IsVerified-Ends : IsVerified c q request w w' response → r ≡ returns (q, w', response, none)
    IsVerified-Ends v =
        let sent : VerifyRequest W Time TlsConfig = asked_messages v.port q.provider request in
        let ran =
          (verify_provider_iff host scanner zero_response decode tools.parse rfc3339 marshal c
              v.client sent v.reached w' response).1
            v.verifies in
        Ends-served messaging library c q request w v.port v.reached w' response none r v.served
          (λ i. ((ran i).1, (ran i).2, (ran i).3)) ends

  -- If the tools are not to be checked or the check finds no fault, `VerifyMessageProviderRaw`, with
  -- the client of the library and the `Pact` configured, returns no error exactly if the handler of
  -- messages comes up on a free port, the request names pacts or a broker, with both or neither of the
  -- credentials and a provider version if it names a broker, and the verifier, run by the client of
  -- the `Pact` on the request with the URL of the port, runs to its end with no error. The results are
  -- what it prints.
  pub message_provider-IsVerified :
      {Interaction Pending : Type 0} (sys : System W PactClient)
      (p : Pact PactClient Interaction Pending) (request : VerifyMessageRequest W Value Float)
      (w : W)
      → ToolsPass sys p w
      → (c : PactClient) × (q : Pact PactClient Interaction Pending) × (w₁ : W) × IsConfigured sys p
          q
        × (q.pact_client ≡ some c)
        × ((q' : Pact PactClient Interaction Pending) (w' : W) (response : List Response)
            → (verify_message_provider_raw messaging library sys p request w
                ≡ returns (q', w', response, none))
              ↔ ((q ≡ q') × IsVerified c q request w₁ w' response))
  message_provider-IsVerified sys p request w pass =
      let (c, q, w₁, config, given, ends) =
        message_provider-Ends messaging library sys p request w pass in
      (
        c,
        q,
        w₁,
        config,
        given,
        λ q' w' response. (
          Ends-IsVerified c q request w₁ w' response _ ends q',
          λ (same, v).
              IsVerified-Ends c q request w₁ w' response _ ends v
              ∙ (λ i. returns (same i, w', response, none)),
        ),
      )
