-- ===== src/Dsl/Verifying/Requests.antt =====
-- The request that `VerifyProviderRaw` of dsl/pact.go gives to the client.
use pact_go.Common.{ℕ, Text, bytes, [], ◌≡◌, ◌≢◌, ◌↔◌, ◌⊎◌}
use pact_go.Types.VerifyRequest.{VerifyRequest}
use pact_go.Types.VerifyRequest.Complete.{IsComplete}
use pact_go.Dsl.Verifying.Expected.{url_of, asked_request}

pub url_of-ne-nil : (port : ℕ) → url_of port ≢ []
unfolding bytes
url_of-ne-nil port = cc

module _ {W Time TlsConfig : Type 0} (port : ℕ) (provider : Text)
    (request : VerifyRequest W Time TlsConfig) where
  -- A request is complete if its URL is given, and but for that.
  pub record IsSourced : Type 0 where
    pub source : (request.pact_urls ≢ []) ⊎ (request.broker_url ≢ [])
    pub credentials :
        request.broker_url ≢ [] → (request.broker_username ≡ []) ↔ (request.broker_password ≡ [])
    pub versioned : request.broker_url ≢ [] → request.provider_version ≢ []

  -- The request that goes to the client is complete exactly if that of the caller is, but for its
  -- provider URL, which is replaced.
  pub asked_request-IsComplete : IsComplete (asked_request port provider request) ↔ IsSourced
  asked_request-IsComplete = (
    λ c. record { source = c.source; credentials = c.credentials; versioned = c.versioned },
    λ s. record {
      source = s.source;
      provider = url_of-ne-nil port;
      credentials = s.credentials;
      versioned = s.versioned;
    },
  )
