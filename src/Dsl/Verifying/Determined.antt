-- ===== src/Dsl/Verifying/Determined.antt =====
-- The steps of `VerifyProviderRaw` of dsl/pact.go that are known give its result.
use pact_go.Common.{
  ℕ, Text, Error, ok, err, Outcome, returns, Option, none, List, ◌≡◌, refl, sym, ap, ◌∙◌,
}
use pact_go.Types.VerifyRequest.{VerifyRequest}
use pact_go.Proxy.{http_reverse_proxy}
use pact_go.Dsl.Hooks.{ProviderState}
use pact_go.Dsl.Pact.{Pact}
use pact_go.Dsl.Client.Address.{ParsedUrl}
use pact_go.Dsl.Verifying.{Verification, proxy_message}
use pact_go.Dsl.Verifying.Expected.{asked_request, asked_options}
use pact_go.Dsl.Verifying.Outcomes.{
  Proxied, proxied, portless, Ends, misspelt, unreachable, answered,
}

ok_inj : {A : Type 0} {a b : A} → ok a ≡ ok b → a ≡ b
ok_inj {a} h = λ i. elim (h i) [ ok x ↦ x | err e ↦ a ]

module _ {W Client Time TlsConfig Response : Type 0}
    (tools : Verification W Client Time TlsConfig Response) (write_header : ℕ → W → W)
    (decode : Text → Option ProviderState) where
  Proxied-unique :
      (u v : ParsedUrl) (request : VerifyRequest W Time TlsConfig) (w : W) (m n : ℕ) (w₁ w₂ : W)
      → u ≡ v
      → Proxied tools write_header decode u request w m w₁
      → Proxied tools write_header decode v request w n w₂
      → (m ≡ n) × (w₁ ≡ w₂)
  Proxied-unique u v request w m n _ _ same (proxied _ h s) (proxied _ k t) =
      let e : ok (m, h) ≡ ok (n, k) =
        sym s
        ∙ ap
            (λ x.
              http_reverse_proxy tools.transport tools.free_port
                (asked_options write_header decode x request))
            same
        ∙ t in
      let e' = ok_inj e in (λ i. (e' i).0, λ i. tools.serve (e' i).0 (e' i).1 w)
  Proxied-unique u v request w m n _ _ same (proxied _ h s) (portless e t) = absurd (cc)
  Proxied-unique u v request w m n _ _ same (portless e s) (proxied _ k t) = absurd (cc)
  Proxied-unique u v request w m n _ _ same (portless e s) (portless d t) = (refl, refl)

module _ {W Client Interaction Message Time TlsConfig Response : Type 0}
    (tools : Verification W Client Time TlsConfig Response) (write_header : ℕ → W → W)
    (decode : Text → Option ProviderState) where
  -- The URL is parsed, the proxy comes up, and the client gives a result: that is the result.
  pub Ends-answered :
      (c : Client) (q : Pact Client Interaction Message) (request : VerifyRequest W Time TlsConfig)
      (w : W) (u : ParsedUrl) (port : ℕ) (w₁ w₂ w₃ : W) (response : List Response)
      (e : Option Error)
      (r : Outcome (Pact Client Interaction Message × W × List Response × Option Error))
      → tools.parse request.provider_base_url ≡ ok u
      → Proxied tools write_header decode u request w port w₁
      → tools.wait_for_port port q.client_timeout (proxy_message port) w₁ ≡ (w₂, none)
      → tools.verify_provider c (asked_request port q.provider request) w₂ ≡ (w₃, response, e)
      → Ends tools write_header decode c q request w r
      → r ≡ returns (q, w₃, response, e)
  Ends-answered c q request w u port w₁ w₂ w₃ response e _ parsed through up ran (misspelt d bad) =
      absurd (cc)
  Ends-answered c q request w u port w₁ w₂ w₃ response e _ parsed through up ran
        (unreachable v n v₁ v₂ d parsed' through' late) =
      let (same, same') =
        Proxied-unique tools write_header decode u v request w port n w₁ v₁
          (ok_inj (sym parsed ∙ parsed')) through through' in
      absurd (cc (up, late, same, same'))
  Ends-answered c q request w u port w₁ w₂ w₃ response e _ parsed through up ran
        (answered v n v₁ v₂ v₃ rs d parsed' through' up' ran') =
      let (same, same') =
        Proxied-unique tools write_header decode u v request w port n w₁ v₁
          (ok_inj (sym parsed ∙ parsed')) through through' in
      cc (up, up', ran, ran', same, same')
