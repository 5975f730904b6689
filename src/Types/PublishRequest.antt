-- ===== src/Types/PublishRequest.antt =====
-- types/publish_request.go: the request to publish pacts to a broker, and its `Validate` method.
pub mod CommandLine
use pact_go.Common.{
  Text, bytes, is_empty, Error, Bool, true, false, ◌&&◌, Option, none, some, List, [], ◌∷◌,
}
use pact_go.Common.Lists.{is_nil}
use pact_go.Types.Args.{Method, done, add, add_each, fail_if, ◌>>◌}
use pact_go.Types.VerifyRequest.{present, one_of_two}

pub record PublishRequest : Type 0 where
  pub pact_urls : List Text
  pub pact_broker : Text
  pub broker_username : Text
  pub broker_password : Text
  pub broker_token : Text
  pub consumer_version : Text
  pub tags : List Text
  pub verbose : Bool
  pub args : List Text

unfoldable pub validate_args : PublishRequest → Method
validate_args p = do
  fail_if (is_nil p.pact_urls) (bytes "'PactURLs' is mandatory")
  add true p.pact_urls
  add (present p.broker_username) (bytes "--broker-username" ∷ p.broker_username ∷ [])
  add (present p.broker_password) (bytes "--broker-password" ∷ p.broker_password ∷ [])
  fail_if (present p.pact_broker && one_of_two p.broker_username p.broker_password)
      (bytes "both 'BrokerUsername' and 'BrokerPassword' must be supplied if one given")
  fail_if (is_empty p.pact_broker) (bytes "'PactBroker' is mandatory")
  add true (bytes "--broker-base-url" ∷ p.pact_broker ∷ [])
  add (present p.broker_token) (bytes "--broker-token" ∷ p.broker_token ∷ [])
  fail_if (is_empty p.consumer_version) (bytes "'ConsumerVersion' is mandatory")
  add true (bytes "--consumer-app-version" ∷ p.consumer_version ∷ [])
  add_each (bytes "--tag") p.tags
  add p.verbose (bytes "--verbose" ∷ [])
  done

unfoldable pub validate : PublishRequest → PublishRequest × Option Error
validate p = let (out, e) = validate_args p [] in (record p { args = out }, e)
