-- ===== src/Types/MessageRequest.antt =====
-- types/pact_message_request.go and types/pact_reification_request.go: the requests to pact-message.
use pact_go.Common.{Text, bytes, Error, Result, ok, err, Option, none, some, List, [], ◌∷◌}

-- `Message` is any Go value; `marshal` is `json.Marshal` on it.
pub record PactMessageRequest (Value : Type 0) : Type 0 where
  pub message : Value
  pub consumer : Text
  pub provider : Text
  pub pact_dir : Text
  pub args : List Text

pub record PactReificationRequest (Value : Type 0) : Type 0 where
  pub message : Value
  pub args : List Text

module _ {Value : Type 0} (marshal : Value → Result Text) where
  unfoldable pub validate_message :
      PactMessageRequest Value → PactMessageRequest Value × Option Error
  validate_message m = elim (marshal m.message) [
    | err e ↦ (record m { args = [] }, some e)
    | ok body ↦ (
      record m {
        args =
            bytes "update"
            ∷ body
            ∷ bytes "--consumer"
            ∷ m.consumer
            ∷ bytes "--provider"
            ∷ m.provider
            ∷ bytes "--pact-dir"
            ∷ m.pact_dir
            ∷ bytes "--pact-specification-version"
            ∷ bytes "3"
            ∷ [];
      },
      none,
    )
  ]

  unfoldable pub validate_reification :
      PactReificationRequest Value → PactReificationRequest Value × Option Error
  validate_reification m = elim (marshal m.message) [
    | err e ↦ (record m { args = [] }, some e)
    | ok body ↦ (record m { args = bytes "reify" ∷ body ∷ [] }, none)
  ]
