-- ===== src/Dsl/Messages/Provider/Outcomes.antt =====
-- How `VerifyMessageProviderRaw` of dsl/pact.go ends.
use pact_go.Common.{
  given-some, ℕ, bytes, Error, Result, ok, err, Outcome, returns, panics, Option, none, some, List,
  [], ◌++◌, ◌≡◌, refl,
}
use pact_go.Dsl.Pact.{Pact, System}
use pact_go.Dsl.Pact.Setup.{ToolsPass, setup_only_returns}
use pact_go.Dsl.Pact.Ready.{IsConfigured, setup_only-IsConfigured}
use pact_go.Dsl.Messages.Request.{VerifyMessageRequest}
use pact_go.Dsl.Messages.Provider.{
  Messaging, message_request, message_proxy, mux, behind_wait, behind_listen, behind_port,
  verify_message_provider_raw,
}
use pact_go.Dsl.Messages.Provider.Expected.{asked_messages, asked_handler}
use pact_go.Dsl.Verifying.{Verification, call_client}

module _ {W Value Float Client Interaction Pending Time TlsConfig Response : Type 0}
    (messaging : Messaging W Value Float)
    (tools : Verification W Client Time TlsConfig Response) where
  -- The result, with the client `c` and the `Pact` that are set up.
  pub data Ends (c : Client) (q : Pact Client Interaction Pending)
      (request : VerifyMessageRequest W Value Float) (w : W)
      : Outcome (Pact Client Interaction Pending × W × List Response × Option Error) → Type 0 where
    portless :
        (e : Error)
        → tools.free_port ≡ err e
        → Ends c q request w
            (returns (q, w, [], some (bytes "unable to allocate a port for verification: " ++ e)))
    deaf :
        (port : ℕ) (e : Error)
        → tools.free_port ≡ ok port
        → messaging.listen port ≡ some e
        → Ends c q request w panics
    unreachable :
        (port : ℕ) (w' : W) (e : Error)
        → tools.free_port ≡ ok port
        → messaging.listen port ≡ none
        → tools.wait_for_port port q.client_timeout
            (message_proxy port)
            (tools.serve port (asked_handler messaging request) w)
          ≡ (w', some e)
        → Ends c q request w panics
    answered :
        (port : ℕ) (w₁ w₂ : W) (response : List Response) (e : Option Error)
        → tools.free_port ≡ ok port
        → messaging.listen port ≡ none
        → tools.wait_for_port port q.client_timeout
            (message_proxy port)
            (tools.serve port (asked_handler messaging request) w)
          ≡ (w₁, none)
        → tools.verify_provider c (asked_messages port q.provider request) w₁ ≡ (w₂, response, e)
        → Ends c q request w (returns (q, w₂, response, e))

  module _ (c : Client) (q : Pact Client Interaction Pending) (given : q.pact_client ≡ some c)
      (request : VerifyMessageRequest W Value Float) (w : W) where
    module _ (port : ℕ) (free : tools.free_port ≡ ok port) where
      behind_wait-Ends :
          (r : W × Option Error)
          → messaging.listen port ≡ none
          → tools.wait_for_port port q.client_timeout
              (message_proxy port)
              (tools.serve port (asked_handler messaging request) w)
            ≡ r
          → Ends c q request w (behind_wait messaging tools port q request r)
      unfolding behind_wait call_client message_request
      behind_wait-Ends (w', some e) heard waited = unreachable port w' e free heard waited
      behind_wait-Ends (w', none) heard waited =
          rw given (answered port w' _ _ _ free heard waited refl)

      behind_listen-Ends :
          (e : Option Error)
          → messaging.listen port ≡ e
          → Ends c q request w (behind_listen messaging tools port e q request w)
      unfolding behind_listen mux
      behind_listen-Ends (some e) heard = deaf port e free heard
      behind_listen-Ends none heard = behind_wait-Ends _ heard refl

    behind_port-Ends :
        (r : Result ℕ)
        → tools.free_port ≡ r
        → Ends c q request w (behind_port messaging tools r q request w)
    unfolding behind_port
    behind_port-Ends (err e) free = portless e free
    behind_port-Ends (ok port) free = behind_listen-Ends port free _ refl

  -- If the tools are not to be checked or the check finds no fault, `VerifyMessageProviderRaw` ends
  -- with the `Pact` configured. With no free port the result is an error. Otherwise the handler of
  -- messages is served on the port and waited for: if nothing listens or it does not come up the
  -- process ends, and if it does the result is that of the client, on the request with the URL of
  -- the port and the provider of the `Pact`.
  pub message_provider-Ends :
      (sys : System W Client) (p : Pact Client Interaction Pending)
      (request : VerifyMessageRequest W Value Float) (w : W)
      → ToolsPass sys p w
      → (c : Client) × (q : Pact Client Interaction Pending) × (w₁ : W) × IsConfigured sys p q
        × (q.pact_client ≡ some c)
        × Ends c q request w₁ (verify_message_provider_raw messaging tools sys p request w)
  unfolding verify_message_provider_raw
  message_provider-Ends sys p request w pass =
      let (q, w₁, prepared) = setup_only_returns sys p w pass in
      let config = setup_only-IsConfigured sys p q w w₁ prepared in
      let (c, given) = given-some q.pact_client config.client in
      (c, q, w₁, config, given, rw prepared (behind_port-Ends c q given request w₁ _ refl))
