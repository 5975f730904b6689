-- ===== src/Dsl/Messages.antt =====
-- dsl/pact.go `messageVerificationHandler`, and the types of dsl/message.go: the HTTP interface
-- through which the message handlers of a provider are verified.
pub mod Statuses
pub mod Consumer
pub mod Request
pub mod Builder
pub mod Provider
use pact_go.Common.{ℕ, Text, Error, Result, ok, err, Option, none, some, List, [], ◌∷◌}
use pact_go.Common.Steps.{unless_failed}
use pact_go.Dsl.Matcher.{Entries}
use pact_go.Dsl.Hooks.{find_handler}

-- `Value` is what stands in an `interface{}`; `none` is nil.
pub record State (Value : Type 0) : Type 0 where
  pub name : Text
  pub params : List (Text × Value)

pub record Message (Value Float : Type 0) : Type 0 where
  pub content : Option Value
  pub content_raw : Option Value
  pub states : List (State Value)
  pub metadata : Entries Float
  pub description : Text
  pub message_type : Option Value
  pub args : List Text

abbrev pub StateHandler : Type 0 → Type 0 → Type 0
StateHandler W Value = State Value → W → W × Option Error

abbrev pub MessageHandler : Type 0 → Type 0 → Type 0 → Type 0
MessageHandler W Value Float = Message Value Float → W → W × Result (Option Value)

-- What is written to the response, the Content-Type left out, which is JSON in every answer.
pub record Answer : Type 0 where
  pub status : ℕ
  pub response_body : Text

abbrev pub refused : ℕ → Answer
refused status = record { status = status; response_body = [] }

module _ {W Value : Type 0} where
  -- One round of the loop over the states.
  unfoldable pub run_state : Option (StateHandler W Value) → State Value → W → W × Option Error
  run_state none state w = (w, none)
  run_state (some sf) state w = sf state w

  unfoldable pub run_states :
      List (Text × StateHandler W Value) → List (State Value) → W → W × Option Error
  run_states handlers [] w = (w, none)
  run_states handlers (state ∷ states) w =
      unless_failed (run_state (find_handler state.name handlers) state w)
        (λ w'. run_states handlers states w')

-- `unmarshal` is `json.Unmarshal` into a `Message`; `marshal` is `json.Marshal` of the map that holds
-- the value as its "contents".
module _ {W Value Float : Type 0} (unmarshal : Text → Result (Message Value Float))
    (marshal : Option Value → Result Text) where
  unfoldable pub write_result : W × Result (Option Value) → W × Answer
  write_result (w, err e) = (w, refused 503)
  write_result (w, ok res) = elim (marshal res) [
    | err e ↦ (w, refused 503)
    | ok body ↦ (w, record { status = 200; response_body = body })
  ]

  unfoldable pub handle_message :
      Option (MessageHandler W Value Float) → Message Value Float → W → W × Answer
  handle_message none message w = (w, refused 404)
  handle_message (some f) message w = write_result (f message w)

  -- What follows the loop over the states.
  unfoldable pub after_states :
      List (Text × MessageHandler W Value Float)
      → Message Value Float
      → W × Option Error
      → W × Answer
  after_states handlers message (w, some e) = (w, refused 500)
  after_states handlers message (w, none) =
      handle_message (find_handler message.description handlers) message w

  -- `body` is what `ioutil.ReadAll` gives of the request.
  unfoldable pub message_verification_handler :
      List (Text × MessageHandler W Value Float)
      → List (Text × StateHandler W Value)
      → Result Text
      → W
      → W × Answer
  message_verification_handler message_handlers state_handlers (err e) w = (w, refused 400)
  message_verification_handler message_handlers state_handlers (ok body) w = elim (unmarshal body) [
    | err e ↦ (w, refused 400)
    | ok message ↦
        after_states message_handlers message (run_states state_handlers message.states w)
  ]
