-- ===== src/Types/VerifyRequest/Complete.antt =====
-- The tests of the `Validate` method of types/verify_request.go, and the flags that it appends.
use pact_go.Common.{
  Text, bytes, is_empty, Bool, false, ◌&&◌, ◌||◌, none, List, [], ◌∷◌, ◌++◌, append_assoc, ◌≡◌, ◌≢◌,
  ◌↔◌, ◌⊎◌, inl, inr, arith, Bool-cases,
}
use pact_go.Common.Lists.{is_nil}
use pact_go.Types.Args.{Method, done, given, each, method_laws}
use pact_go.Types.VerifyRequest.{
  VerifyRequest, present, one_of_two, wip_flags, validate_broker, validate_options,
}

module _ {W Time TlsConfig : Type 0} where
  -- What a request has to hold for the verifier to be run.
  pub record IsComplete (v : VerifyRequest W Time TlsConfig) : Type 0 where
    pub source : (v.pact_urls ≢ []) ⊎ (v.broker_url ≢ [])
    pub provider : v.provider_base_url ≢ []
    pub credentials : v.broker_url ≢ [] → (v.broker_username ≡ []) ↔ (v.broker_password ≡ [])
    pub versioned : v.broker_url ≢ [] → v.provider_version ≢ []

  -- The three tests of the code, at once.
  pub bad : VerifyRequest W Time TlsConfig → Bool
  bad v =
      (is_nil v.pact_urls && is_empty v.broker_url)
      || is_empty v.provider_base_url
      || (present v.broker_url && one_of_two v.broker_username v.broker_password)
      || (present v.broker_url && is_empty v.provider_version)

  pub bad_parts :
      (v : VerifyRequest W Time TlsConfig)
      → bad v ≡ false
      → ((is_nil v.pact_urls && is_empty v.broker_url) ≡ false)
        × (is_empty v.provider_base_url ≡ false)
        × ((present v.broker_url && one_of_two v.broker_username v.broker_password) ≡ false)
        × ((present v.broker_url && is_empty v.provider_version) ≡ false)
  unfolding bad
  bad_parts v e = ground arith

  pub bad_of_parts :
      (v : VerifyRequest W Time TlsConfig)
      → (is_nil v.pact_urls && is_empty v.broker_url) ≡ false
      → is_empty v.provider_base_url ≡ false
      → (present v.broker_url && one_of_two v.broker_username v.broker_password) ≡ false
      → (present v.broker_url && is_empty v.provider_version) ≡ false
      → bad v ≡ false
  unfolding bad
  bad_of_parts v p q r t = ground arith

  pub bad_iff : (v : VerifyRequest W Time TlsConfig) → (bad v ≡ false) ↔ IsComplete v
  unfolding bad
  bad_iff v = (
    λ e. record {
      source = ground arith;
      provider = ground arith;
      credentials = ground arith;
      versioned = ground arith;
    },
    λ c. grind (arith, c.source, c.provider, c.credentials, c.versioned),
  )

module _ {W Time TlsConfig : Type 0} (rfc3339 : Time → Text) where
  abbrev pub broker_flags : VerifyRequest W Time TlsConfig → List Text
  broker_flags v =
      each (bytes "--custom-provider-header") v.custom_provider_headers
      ++ (bytes "--format" ∷ bytes "json" ∷ [])
      ++ (bytes "--provider-base-url" ∷ v.provider_base_url ∷ [])
      ++ given (present v.provider_states_setup_url)
          (bytes "--provider-states-setup-url" ∷ v.provider_states_setup_url ∷ [])
      ++ given (present v.broker_username) (bytes "--broker-username" ∷ v.broker_username ∷ [])
      ++ given (present v.broker_password) (bytes "--broker-password" ∷ v.broker_password ∷ [])
      ++ given (present v.broker_url) (bytes "--pact-broker-base-url" ∷ v.broker_url ∷ [])
      ++ given (present v.broker_token) (bytes "--broker-token" ∷ v.broker_token ∷ [])

  abbrev pub option_flags : VerifyRequest W Time TlsConfig → List Text
  option_flags v =
      given (present v.provider_version) (bytes "--provider_app_version" ∷ v.provider_version ∷ [])
      ++ given (present v.provider) (bytes "--provider" ∷ v.provider ∷ [])
      ++ given v.publish_verification_results
          (bytes "--publish_verification_results" ∷ bytes "true" ∷ [])
      ++ each (bytes "--consumer-version-tag") v.tags
      ++ each (bytes "--provider-version-tag") v.provider_tags
      ++ given v.enable_pending (bytes "--enable-pending" ∷ [])
      ++ wip_flags rfc3339 v.include_wip_pacts_since
      ++ given (present v.pact_log_dir) (bytes "--log-dir" ∷ v.pact_log_dir ∷ [])
      ++ given (present v.pact_log_level) (bytes "--log-level" ∷ v.pact_log_level ∷ [])

  pub validate_options_lem :
      (v : VerifyRequest W Time TlsConfig) (args : List Text)
      → validate_options rfc3339 v args ≡ (args ++ option_flags v, none)
  unfolding validate_options
  validate_options_lem v args = unfold done in simp (method_laws, append_assoc)

  pub validate_broker_lem :
      (v : VerifyRequest W Time TlsConfig) (rest : Method) (args : List Text)
      → is_empty v.provider_base_url ≡ false
      → (present v.broker_url && one_of_two v.broker_username v.broker_password) ≡ false
      → (present v.broker_url && is_empty v.provider_version) ≡ false
      → validate_broker rfc3339 v rest args ≡ rest (args ++ broker_flags v)
  unfolding validate_broker
  validate_broker_lem v rest args p q r = simp (method_laws, append_assoc, p, q, r)

  pub validate_broker_inv :
      (v : VerifyRequest W Time TlsConfig) (rest : Method) (args out : List Text)
      → validate_broker rfc3339 v rest args ≡ (out, none)
      → (is_empty v.provider_base_url ≡ false)
        × ((present v.broker_url && one_of_two v.broker_username v.broker_password) ≡ false)
        × ((present v.broker_url && is_empty v.provider_version) ≡ false)
  unfolding validate_broker
  validate_broker_inv v rest args out e = elim (Bool-cases (is_empty v.provider_base_url)) [
    | inl p ↦ let h = simp (method_laws, p) at e in absurd (cc h)
    | inr p ↦
        elim (Bool-cases (present v.broker_url && one_of_two v.broker_username v.broker_password)) [
          | inl q ↦ let h = simp (method_laws, p, q) at e in absurd (cc h)
          | inr q ↦ elim (Bool-cases (present v.broker_url && is_empty v.provider_version)) [
            | inl r ↦ let h = simp (method_laws, p, q, r) at e in absurd (cc h)
            | inr r ↦ (p, q, r)
          ]
        ]
  ]
