-- ===== src/Dsl/Pact/Sessions.antt =====
-- dsl/pact.go: the calls of a consumer test on one `Pact`, in whatever order, against what such a
-- test promises.
pub mod Refinement
pub mod Kept
use pact_go.Common.{
  Text, Error, Outcome, returns, panics, ◌>>=◌, Bool, Option, none, some, List, [], ◌∷◌, ◌++◌,
  if◌then◌else◌,
}
use pact_go.Common.Lists.{is_nil}
use pact_go.Common.Steps.{run_steps}
use pact_go.Dsl.MockService.{MockService, Http}
use pact_go.Dsl.MockService
use pact_go.Dsl.Pact.{MockServer, Pact, System, add_message, setup, add_interaction, teardown}
use pact_go.Dsl.Pact.Verify.{base_url, no_interactions, verify, write_pact}
use pact_go.Dsl.Pact.Verify.Order.{additions}

-- A call of a test. `check` is `Verify`, with the integration test that it is given.
pub data Call (W Interaction Message : Type 0) : Type 0 where
  set_up : Bool → Call W Interaction Message
  expect : Interaction → Call W Interaction Message
  note : Message → Call W Interaction Message
  check : (W → W × Option Error) → Call W Interaction Message
  write : Call W Interaction Message
  tear_down : Call W Interaction Message

-- A call that has no result gives no error.
abbrev pub no_error : {A W : Type 0} → Outcome (A × W) → Outcome (A × W × Option Error)
no_error o = o >>= λ (a, w). returns (a, w, none)

module _ {W Client Interaction Message : Type 0} (sys : System W Client)
    (http : Http W Interaction) where
  -- The method of dsl/pact.go that a call is.
  unfoldable pub call_pact :
      Call W Interaction Message
      → Pact Client Interaction Message
      → W
      → Outcome (Pact Client Interaction Message × W × Option Error)
  call_pact (set_up start) p w = no_error (setup sys start p w)
  call_pact (expect i) p w = no_error (add_interaction sys i p w)
  call_pact (note m) p w = returns (add_message m p, w, none)
  call_pact (check test) p w = verify sys http p test w
  call_pact write p w = write_pact sys http p w
  call_pact tear_down p w = no_error (teardown sys p w)

-- What a test promises is said of its interactions that are to be verified, its messages and its
-- one server alone.
pub record Session (Interaction Message : Type 0) : Type 0 where
  pub pending : List Interaction
  pub messages : List Message
  pub server : MockServer

-- What no call changes.
pub record Contract (Client : Type 0) : Type 0 where
  pub client : Client
  pub host : Text
  pub consumer : Text
  pub provider : Text
  pub mode : Text

abbrev pub service_at : {Client : Type 0} → Contract Client → MockServer → Text → MockService
service_at c s mode = record {
  base_url = base_url c.host s;
  consumer = c.consumer;
  provider = c.provider;
  pact_file_write_mode = mode;
}

module _ {W Client Interaction Message : Type 0} (sys : System W Client) (http : Http W Interaction)
    (contract : Contract Client) where
  -- Verifying: nothing pending is an error; else the calls and the test up to the first failure, and
  -- whatever its result nothing is pending behind it.
  abbrev pub promised_check :
      (W → W × Option Error)
      → Session Interaction Message
      → W
      → Session Interaction Message × W × Option Error
  promised_check test s w =
      let m = service_at contract s.server [] in
      let (w₁, e) =
        run_steps (additions http m s.pending (test ∷ MockService.verify http m ∷ [])) w in
      if is_nil s.pending
      then (s, w, some no_interactions)
      else (record s { pending = [] }, (MockService.delete_interactions http m w₁).0, e)

  -- The set-up of a test is done, so a further one is nothing, and no call starts a server.
  unfoldable pub promised :
      Call W Interaction Message
      → Session Interaction Message
      → W
      → Outcome (Session Interaction Message × W × Option Error)
  promised (set_up start) s w = returns (s, w, none)
  promised (expect i) s w = returns (record s { pending = s.pending ++ i ∷ [] }, w, none)
  promised (note m) s w = returns (record s { messages = s.messages ++ m ∷ [] }, w, none)
  promised (check test) s w = returns (promised_check test s w)
  promised write s w =
      let (w', e) = MockService.write_pact http (service_at contract s.server contract.mode) w in
      returns (s, w', e)
  promised tear_down s w = do
    (w', server, e) ← sys.stop_server contract.client s.server w
    returns (record s { server = server }, w', none)
