-- ===== src/Dsl/Messages/Statuses.antt =====
-- The answers of `messageVerificationHandler` of dsl/pact.go.
use pact_go.Common.{
  Text, Error, Result, ok, err, Option, none, some, List, [], ◌∷◌, ◌≡◌, refl, inl, inr,
  Result-cases,
}
use pact_go.Common.Steps.{unless_failed, run_steps}
use pact_go.Dsl.Hooks.{find_handler}
use pact_go.Dsl.Messages.{
  State, Message, StateHandler, MessageHandler, Answer, refused, run_state, run_states,
  write_result, handle_message, after_states, message_verification_handler,
}

module _ {W Value : Type 0} where
  -- The handlers of the states that have one, in the order of the states.
  unfoldable pub found_steps :
      List (Text × StateHandler W Value) → List (State Value) → List (W → W × Option Error)
  found_steps handlers [] = []
  found_steps handlers (state ∷ states) = elim (find_handler state.name handlers) [
    | none ↦ found_steps handlers states
    | some sf ↦ sf state ∷ found_steps handlers states
  ]

  found_round :
      (found : Option (StateHandler W Value)) (handlers : List (Text × StateHandler W Value))
      (state : State Value) (states : List (State Value))
      → ((w : W) → run_states handlers states w ≡ run_steps (found_steps handlers states) w)
      → (w : W)
      → unless_failed (run_state found state w) (λ w'. run_states handlers states w')
        ≡ run_steps
            (elim found [
              | none ↦ found_steps handlers states
              | some sf ↦ sf state ∷ found_steps handlers states
            ])
            w
  unfolding run_state run_steps unless_failed
  found_round none handlers state states rest w = rest w
  found_round (some sf) handlers state states rest w =
      λ k. unless_failed (sf state w) (λ w'. rest w' k)

  run_states-run_steps :
      (handlers : List (Text × StateHandler W Value)) (states : List (State Value)) (w : W)
      → run_states handlers states w ≡ run_steps (found_steps handlers states) w
  unfolding run_states run_steps found_steps
  run_states-run_steps handlers [] w = refl
  run_states-run_steps handlers (state ∷ states) w =
      found_round (find_handler state.name handlers) handlers state states
        (run_states-run_steps handlers states) w

module _ {W Value Float : Type 0} (unmarshal : Text → Result (Message Value Float))
    (marshal : Option Value → Result Text) where
  -- Which answer a request gets, from the world that the handlers leave.
  pub data Answered (messages : List (Text × MessageHandler W Value Float))
      (states : List (Text × StateHandler W Value)) (body : Result Text) (w : W)
      : W → Answer → Type 0 where
    unread : (e : Error) → body ≡ err e → Answered messages states body w w (refused 400)
    undecoded :
        (text : Text) (e : Error)
        → body ≡ ok text
        → unmarshal text ≡ err e
        → Answered messages states body w w (refused 400)
    state_failed :
        (text : Text) (message : Message Value Float) (w₁ : W) (e : Error)
        → body ≡ ok text
        → unmarshal text ≡ ok message
        → run_steps (found_steps states message.states) w ≡ (w₁, some e)
        → Answered messages states body w w₁ (refused 500)
    unknown :
        (text : Text) (message : Message Value Float) (w₁ : W)
        → body ≡ ok text
        → unmarshal text ≡ ok message
        → run_steps (found_steps states message.states) w ≡ (w₁, none)
        → find_handler message.description messages ≡ none
        → Answered messages states body w w₁ (refused 404)
    failed :
        (text : Text) (message : Message Value Float) (w₁ w₂ : W) (f : MessageHandler W Value Float)
        (e : Error)
        → body ≡ ok text
        → unmarshal text ≡ ok message
        → run_steps (found_steps states message.states) w ≡ (w₁, none)
        → find_handler message.description messages ≡ some f
        → f message w₁ ≡ (w₂, err e)
        → Answered messages states body w w₂ (refused 503)
    unencoded :
        (text : Text) (message : Message Value Float) (w₁ w₂ : W) (f : MessageHandler W Value Float)
        (res : Option Value) (e : Error)
        → body ≡ ok text
        → unmarshal text ≡ ok message
        → run_steps (found_steps states message.states) w ≡ (w₁, none)
        → find_handler message.description messages ≡ some f
        → f message w₁ ≡ (w₂, ok res)
        → marshal res ≡ err e
        → Answered messages states body w w₂ (refused 503)
    answered :
        (text : Text) (message : Message Value Float) (w₁ w₂ : W) (f : MessageHandler W Value Float)
        (res : Option Value) (encoded : Text)
        → body ≡ ok text
        → unmarshal text ≡ ok message
        → run_steps (found_steps states message.states) w ≡ (w₁, none)
        → find_handler message.description messages ≡ some f
        → f message w₁ ≡ (w₂, ok res)
        → marshal res ≡ ok encoded
        → Answered messages states body w w₂ (record { status = 200; response_body = encoded })

  module _ (messages : List (Text × MessageHandler W Value Float))
      (states : List (Text × StateHandler W Value)) (body : Result Text) (w : W) where
    abbrev IsAnswered : W × Answer → Type 0
    IsAnswered r = Answered messages states body w r.0 r.1

    module _ (text : Text) (message : Message Value Float) (read : body ≡ ok text)
        (decoded : unmarshal text ≡ ok message) where
      write_result-Answered :
          (w₁ : W) (f : MessageHandler W Value Float) (r : W × Result (Option Value))
          → run_steps (found_steps states message.states) w ≡ (w₁, none)
          → find_handler message.description messages ≡ some f
          → f message w₁ ≡ r
          → IsAnswered (write_result unmarshal marshal r)
      unfolding write_result
      write_result-Answered w₁ f (w₂, err e) ran found called =
          failed text message w₁ w₂ f e read decoded ran found called
      write_result-Answered w₁ f (w₂, ok res) ran found called = elim (Result-cases (marshal res)) [
        | inl (e, q) ↦
            rw (q, write_result)
              (unencoded text message w₁ w₂ f res e read decoded ran found called q)
        | inr (encoded, q) ↦
            rw (q, write_result)
              (answered text message w₁ w₂ f res encoded read decoded ran found called q)
      ]

      handle_message-Answered :
          (w₁ : W) (handler : Option (MessageHandler W Value Float))
          → run_steps (found_steps states message.states) w ≡ (w₁, none)
          → find_handler message.description messages ≡ handler
          → IsAnswered (handle_message unmarshal marshal handler message w₁)
      unfolding handle_message
      handle_message-Answered w₁ none ran found = unknown text message w₁ read decoded ran found
      handle_message-Answered w₁ (some f) ran found =
          write_result-Answered w₁ f (f message w₁) ran found refl

      after_states-Answered :
          (r : W × Option Error)
          → run_steps (found_steps states message.states) w ≡ r
          → IsAnswered (after_states unmarshal marshal messages message r)
      unfolding after_states
      after_states-Answered (w₁, some e) ran = state_failed text message w₁ e read decoded ran
      after_states-Answered (w₁, none) ran =
          handle_message-Answered w₁ (find_handler message.description messages) ran refl

  -- The answer to a request for a message is status 400 if its body cannot be read or decoded; 500
  -- if the handlers of its states, which run in the order of the states, those with no handler passed
  -- over, fail, where the first failure ends them; 404 if no message handler has its description; 503
  -- if the message handler fails or its result cannot be encoded; and else 200 with the encoded
  -- result. The text is empty unless the status is 200, and nothing runs behind a failure.
  pub message_verification_handler-Answered :
      (messages : List (Text × MessageHandler W Value Float))
      (states : List (Text × StateHandler W Value)) (body : Result Text) (w : W)
      → Answered messages states body w
          (message_verification_handler unmarshal marshal messages states body w).0
          (message_verification_handler unmarshal marshal messages states body w).1
  unfolding message_verification_handler
  message_verification_handler-Answered messages states (err e) w = unread e refl
  message_verification_handler-Answered messages states (ok text) w =
      elim (Result-cases (unmarshal text)) [
        | inl (e, q) ↦ rw (q, message_verification_handler) (undecoded text e refl q)
        | inr (message, q) ↦
            rw (q, message_verification_handler, run_states-run_steps states message.states w)
              (after_states-Answered messages states (ok text) w text message refl q
                (run_steps (found_steps states message.states) w) refl)
      ]
