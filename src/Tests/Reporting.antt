-- ===== src/Tests/Reporting.antt =====
-- The report of a verification on concrete results.
use pact_go.Common.{Text, bytes, true, false, none, List, [], ◌∷◌, ◌≡◌, ◌↔◌, ◌⊎◌}
use pact_go.Dsl.Reports.{Example, ProviderVerifierResponse, response_calls, verify_provider}
use pact_go.Dsl.Reports.Failures.{fails, some_broken, fails-verify_provider}

abbrev example_with : Text → Example
example_with status = record {
  description = bytes "a user";
  full_description = bytes "a user exists";
  status = status;
  consumer_name = bytes "web";
  provider_name = bytes "users";
  short_description = bytes "exists";
  exception_message = bytes "no user";
}

abbrev results : List ProviderVerifierResponse
results =
    record {
      examples =
          example_with (bytes "passed")
          ∷ example_with (bytes "pending")
          ∷ example_with (bytes "failed")
          ∷ [];
      notices = record { notice_text = bytes "new"; when = bytes "before_verification" } ∷ [];
    }
    ∷ []

fails-verify_provider_example :
    ((fails (verify_provider false [] [] results none) ≡ true)
      ↔ (((results ≡ []) × (false ≡ true)) ⊎ (some_broken results ≡ true)))
    × ((r : ProviderVerifierResponse) → fails (response_calls r) ≡ false)
fails-verify_provider_example = fails-verify_provider false [] [] results none
