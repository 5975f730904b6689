-- ===== src/Types/VerifyRequest/CommandLine.antt =====
-- When the `Validate` method of types/verify_request.go succeeds, and the command line it builds.
use pact_go.Common.{
  Text, bytes, is_empty, Error, Result, false, not, ◌&&◌, Option, none, List, [], ◌∷◌, ◌++◌,
  append_assoc, ◌≡◌, ◌↔◌, inl, inr, refl, sym, ap, ◌∙◌, Bool-cases,
}
use pact_go.Common.Lists.{is_nil}
use pact_go.Types.Args.{◌>>◌, given, each, method_laws}
use pact_go.Types.Selector.{ConsumerVersionSelector, add_selectors, Encodes}
use pact_go.Types.Selector.Loop.{add_selectors->>, add_selectors_inv}
use pact_go.Types.VerifyRequest.{
  VerifyRequest, validate_broker, validate_options, validate_args, validate,
}
use pact_go.Types.VerifyRequest.Complete.{
  IsComplete, bad_parts, bad_of_parts, bad_iff, broker_flags, option_flags, validate_options_lem,
  validate_broker_lem, validate_broker_inv,
}

given-is_nil : (urls : List Text) → given (not (is_nil urls)) urls ≡ urls
given-is_nil [] = refl
given-is_nil (u ∷ us) = refl

module _ {W Time TlsConfig : Type 0} (rfc3339 : Time → Text) where
  -- The command line of a request whose selectors have these JSON texts.
  abbrev pub command_line : VerifyRequest W Time TlsConfig → List Text → List Text
  command_line v bodies =
      v.pact_urls
      ++ (each (bytes "--consumer-version-selector") bodies
          ++ (broker_flags rfc3339 v ++ option_flags rfc3339 v))

  module _ (marshal : ConsumerVersionSelector → Result Text) where
    abbrev pub Accepts : VerifyRequest W Time TlsConfig → List Text → Type 0
    Accepts v out =
        (bodies : List Text) × Encodes marshal v.consumer_version_selectors bodies
        × (out ≡ command_line v bodies)

    -- The head of the method, on a request with pacts or a broker.
    validate_head :
        (v : VerifyRequest W Time TlsConfig)
        → (is_nil v.pact_urls && is_empty v.broker_url) ≡ false
        → validate_args rfc3339 marshal v []
          ≡ (add_selectors marshal v.consumer_version_selectors
                >> validate_broker rfc3339 v (validate_options rfc3339 v))
              v.pact_urls
    unfolding validate_args
    validate_head v p = simp (method_laws, p, given-is_nil)

    accepted :
        (v : VerifyRequest W Time TlsConfig) (out : List Text)
        → IsComplete v
        → Accepts v out
        → validate_args rfc3339 marshal v [] ≡ (out, none)
    accepted v out complete (bodies, encoded, same) =
        let (p, q, r, t) = bad_parts v ((bad_iff v).1 complete) in
        validate_head v p
        ∙ add_selectors->> marshal _ v.pact_urls encoded
        ∙ validate_broker_lem rfc3339 v _ _ q r t
        ∙ validate_options_lem rfc3339 v _
        ∙ simp (same, append_assoc)

    accepted_inv :
        (v : VerifyRequest W Time TlsConfig) (out : List Text)
        → validate_args rfc3339 marshal v [] ≡ (out, none)
        → IsComplete v × Accepts v out
    unfolding validate_args
    accepted_inv v out e = elim (Bool-cases (is_nil v.pact_urls && is_empty v.broker_url)) [
      | inl p ↦ let h = simp (method_laws, p) at e in absurd (cc h)
      | inr p ↦
          let (bodies, encoded, e₁) =
            add_selectors_inv marshal v.consumer_version_selectors _ v.pact_urls out
              (sym (validate_head v p) ∙ e) in
          let (q, r, t) = validate_broker_inv rfc3339 v _ _ out e₁ in
          let built =
            sym (
              validate_broker_lem rfc3339 v (validate_options rfc3339 v) _ q r t
              ∙ validate_options_lem rfc3339 v _)
            ∙ e₁ in
          (
            (bad_iff v).0 (bad_of_parts v p q r t),
            (
              bodies,
              encoded,
              sym (ap (λ (x : List Text × Option Error). x.0) built) ∙ simp append_assoc,
            ),
          )
    ]

    -- `Validate` returns nil, with `Args` being `out` and all else unchanged, exactly if: the request
    -- names pacts or a broker; it has a provider URL; a request with a broker gives both or neither of
    -- the credentials, and a provider version; every selector is valid and has a JSON text; and `out`
    -- is the pacts, the selectors and each given option behind its flag, in this order.
    pub verify_validate_iff :
        (v : VerifyRequest W Time TlsConfig) (out : List Text)
        → (validate rfc3339 marshal v ≡ (record v { args = out }, none))
          ↔ (IsComplete v × Accepts v out)
    unfolding validate
    verify_validate_iff v out = (
      λ e. accepted_inv v out (λ i. let (w, x) = e i in (w.args, x)),
      λ h.
          ap (λ (r : List Text × Option Error). (record v { args = r.0 }, r.1))
            (accepted v out h.0 h.1),
    )

    -- A second `Validate` of a request gives what the first gave, error included: `Args` is built
    -- anew, and nothing else was changed.
    verify_validate_idempotent :
        (v : VerifyRequest W Time TlsConfig)
        → validate rfc3339 marshal (validate rfc3339 marshal v).0 ≡ validate rfc3339 marshal v
    unfolding validate validate_args validate_broker validate_options
    verify_validate_idempotent v = refl
