-- ===== src/Dsl/Pact/Verify.antt =====
-- dsl/pact.go: `Verify` and `WritePact`, the interactions of a consumer test with the mock service.
pub mod Order
pub mod Again
use pact_go.Common.{
  ℕ, Text, bytes, Error, Outcome, returns, panics, ◌>>=◌, Bool, true, Option, none, some, List, [],
  ◌∷◌, ◌++◌, if◌then◌else◌,
}
use pact_go.Common.Lists.{is_nil}
use pact_go.Common.Steps.{unless_failed}
use pact_go.Utils.Decimal.{itoa}
use pact_go.Dsl.MockService.{MockService, Http}
use pact_go.Dsl.MockService
use pact_go.Dsl.Pact.{MockServer, Pact, System, setup}

abbrev pub no_interactions : Error
no_interactions = bytes "there are no interactions to be verified"

-- `fmt.Sprintf("http://%s:%d", p.Host, p.Server.Port)`
abbrev pub base_url : Text → MockServer → Text
base_url host s = bytes "http://" ++ host ++ bytes ":" ++ itoa s.port

module _ {W Interaction : Type 0} (http : Http W Interaction) where
  -- The loop over the interactions, which ends at the first one that is not taken.
  unfoldable pub add_all : MockService → List Interaction → W → W × Option Error
  add_all m [] w = (w, none)
  add_all m (i ∷ is) w =
      unless_failed (MockService.add_interaction http m i w) (λ w'. add_all m is w')

  -- `Verify` from the loop to its return; the integration test returns.
  unfoldable pub verify_steps :
      MockService → List Interaction → (W → W × Option Error) → W → W × Option Error
  verify_steps m is test w =
      unless_failed (add_all m is w)
        (λ w'. unless_failed (test w') (λ w''. MockService.verify http m w''))

module _ {W Client Interaction Message : Type 0} (sys : System W Client)
    (http : Http W Interaction) where
  -- The function that is deferred runs behind the steps and drops the error of its call.
  unfoldable pub verify_on :
      Option MockServer
      → Pact Client Interaction Message
      → (W → W × Option Error)
      → W
      → Outcome (Pact Client Interaction Message × W × Option Error)
  verify_on none p test w = panics
  verify_on (some s) p test w =
      let m : MockService = record {
        base_url = base_url p.host s;
        consumer = p.consumer;
        provider = p.provider;
        pact_file_write_mode = [];
      } in
      let (w₁, e) = verify_steps http m p.interactions test w in
      let (w₂, lost) = MockService.delete_interactions http m w₁ in
      returns (record p { interactions = [] }, w₂, e)

  unfoldable pub verify :
      Pact Client Interaction Message
      → (W → W × Option Error)
      → W
      → Outcome (Pact Client Interaction Message × W × Option Error)
  verify p test w = do
    (p', w') ← setup sys true p w
    (if is_nil p'.interactions
        then returns (p', w', some no_interactions)
        else verify_on p'.server p' test w')

  unfoldable pub write_on :
      Option MockServer
      → Pact Client Interaction Message
      → W
      → Outcome (Pact Client Interaction Message × W × Option Error)
  write_on none p w = panics
  write_on (some s) p w =
      let m : MockService = record {
        base_url = base_url p.host s;
        consumer = p.consumer;
        provider = p.provider;
        pact_file_write_mode = p.pact_file_write_mode;
      } in
      let (w', e) = MockService.write_pact http m w in returns (p, w', e)

  unfoldable pub write_pact :
      Pact Client Interaction Message
      → W
      → Outcome (Pact Client Interaction Message × W × Option Error)
  write_pact p w = do (p', w') ← setup sys true p w; write_on p'.server p' w'
