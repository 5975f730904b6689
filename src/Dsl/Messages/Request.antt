-- ===== src/Dsl/Messages/Request.antt =====
-- dsl/verify_mesage_request.go: the request of a message verification, and its `Validate` method.
use pact_go.Common.{Text, bytes, Error, Bool, true, not, Option, List, [], ◌∷◌}
use pact_go.Common.Lists.{is_nil}
use pact_go.Types.Args.{Method, done, add, fail_if, ◌>>◌}
use pact_go.Types.Selector.{ConsumerVersionSelector}
use pact_go.Types.VerifyRequest.{present}
use pact_go.Dsl.Messages.{MessageHandler, StateHandler}

pub record VerifyMessageRequest (W Value Float : Type 0) : Type 0 where
  pub pact_urls : List Text
  pub broker_url : Text
  pub tags : List Text
  pub consumer_version_selectors : List ConsumerVersionSelector
  pub broker_username : Text
  pub broker_password : Text
  pub broker_token : Text
  pub publish_verification_results : Bool
  pub provider_version : Text
  pub provider_tags : List Text
  pub message_handlers : List (Text × MessageHandler W Value Float)
  pub state_handlers : List (Text × StateHandler W Value)
  pub args : List Text

module _ {W Value Float : Type 0} where
  unfoldable pub validate_args : VerifyMessageRequest W Value Float → Method
  validate_args v = do
    add (not (is_nil v.pact_urls)) v.pact_urls
    fail_if (is_nil v.pact_urls) (bytes "Pact URLs is mandatory")
    add true (bytes "--format" ∷ bytes "json" ∷ [])
    add (present v.broker_username) (bytes "--broker-username" ∷ v.broker_username ∷ [])
    add (present v.broker_password) (bytes "--broker-password" ∷ v.broker_password ∷ [])
    add (present v.provider_version) (bytes "--provider_app_version" ∷ v.provider_version ∷ [])
    add v.publish_verification_results (bytes "--publish_verification_results" ∷ bytes "true" ∷ [])
    done

  unfoldable pub validate :
      VerifyMessageRequest W Value Float → VerifyMessageRequest W Value Float × Option Error
  validate v = let (out, e) = validate_args v [] in (record v { args = out }, e)
