-- ===== src/Dsl/Publish/Sent.antt =====
-- What dsl/publish.go sends to the client.
use pact_go.Common.{Error, Option, none, some, ◌≡◌, ◌⊎◌, inl, inr, sym, ap, ◌∙◌, Option-cases}
use pact_go.Types.PublishRequest.{PublishRequest, validate}
use pact_go.Types.PublishRequest.CommandLine.{
  IsComplete, command_line, first_fault, faults, first_fault-IsComplete, validate-first_fault,
  publish_validate_iff,
}
use pact_go.Dsl.Publish.{Publisher, publish_with, client_of, publish}

module _ {W Client : Type 0} (new_client : Client)
    (publish_pacts : Client → PublishRequest → W → W × Option Error) where
  pub refused_by :
      (c : Client) (r : PublishRequest × Option Error) (e : Error) (w : W)
      → r.1 ≡ some e
      → publish_with new_client publish_pacts c r w ≡ (w, some e)
  unfolding publish_with
  refused_by c (request, none) e w q = absurd (cc)
  refused_by c (request, some x) e w q = λ i. (w, q i)

  -- A complete request is published once, by the client of the publisher or a new one, with the
  -- command line for its options, and the result is that of the client. Any other request does
  -- nothing to the world, and the result is its first fault.
  pub publish-cases :
      (p : Publisher Client) (request : PublishRequest) (w : W)
      → (IsComplete request
          × ((publish new_client publish_pacts p request w).1
              ≡ (publish_pacts
                  (client_of new_client publish_pacts p.pact_client)
                  (record request { args = command_line request })
                  w).0)
          × ((publish new_client publish_pacts p request w).2
              ≡ (publish_pacts
                  (client_of new_client publish_pacts p.pact_client)
                  (record request { args = command_line request })
                  w).1))
        ⊎ ((e : Error) × (first_fault (faults request) ≡ some e)
            × ((publish new_client publish_pacts p request w).1 ≡ w)
            × ((publish new_client publish_pacts p request w).2 ≡ some e))
  unfolding publish
  publish-cases p request w =
      let c = client_of new_client publish_pacts p.pact_client in
      elim (Option-cases (validate request).1) [
        | inl fine ↦
            let complete =
              (first_fault-IsComplete request).0 (sym (validate-first_fault request) ∙ fine) in
            let sent =
              ap (λ r. publish_with new_client publish_pacts c r w)
                ((publish_validate_iff request).1 complete) in
            inl (
              complete,
              unfold publish_with in (λ i. (sent i).0),
              unfold publish_with in (λ i. (sent i).1),
            )
        | inr (e, fault) ↦
            let kept = refused_by c (validate request) e w fault in
            inr
              (e, sym (validate-first_fault request) ∙ fault, (λ i. (kept i).0), (λ i. (kept i).1))
      ]
