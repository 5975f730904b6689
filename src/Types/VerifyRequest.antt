-- ===== src/Types/VerifyRequest.antt =====
-- types/verify_request.go: the request of a provider verification, and its `Validate` method.
pub mod Complete
pub mod CommandLine
use pact_go.Common.{
  ℕ, Text, bytes, is_empty, Error, Result, Bool, true, false, not, ◌&&◌, ◌||◌, Option, none, some,
  List, [], ◌∷◌, ◌++◌,
}
use pact_go.Common.Lists.{is_nil}
use pact_go.Http.{Hook, Middleware, StateHandlers}
use pact_go.Types.Args.{Method, done, add, add_each, fail_if, ◌>>◌}
use pact_go.Types.Selector.{ConsumerVersionSelector, add_selectors}

-- `W` is the world that the callbacks act on; a `time.Time` and a `tls.Config` are not looked into.
pub record VerifyRequest (W Time TlsConfig : Type 0) : Type 0 where
  pub provider_base_url : Text
  pub pact_urls : List Text
  pub broker_url : Text
  pub consumer_version_selectors : List ConsumerVersionSelector
  pub tags : List Text
  pub provider_tags : List Text
  pub provider_states_setup_url : Text
  pub provider : Text
  pub broker_username : Text
  pub broker_password : Text
  pub broker_token : Text
  pub fail_if_no_pacts_found : Bool
  pub publish_verification_results : Bool
  pub provider_version : Text
  pub custom_provider_headers : List Text
  pub state_handlers : StateHandlers W
  pub before_each : Option (Hook W)
  pub after_each : Option (Hook W)
  pub request_filter : Option (Middleware W)
  pub custom_tls_config : Option TlsConfig
  pub enable_pending : Bool
  pub include_wip_pacts_since : Option Time
  pub pact_log_dir : Text
  pub pact_log_level : Text
  pub verbose : Bool
  pub args : List Text

-- `!= ""`
abbrev pub present : Text → Bool
present s = not (is_empty s)

-- One of a user name and a password is given, without the other.
abbrev pub one_of_two : Text → Text → Bool
one_of_two username password =
    (is_empty username && present password) || (present username && is_empty password)

-- `v.IncludeWIPPactsSince.Format(time.RFC3339)` behind its flag
abbrev pub wip_flags : {Time : Type 0} → (Time → Text) → Option Time → List Text
wip_flags rfc3339 none = []
wip_flags rfc3339 (some t) = bytes "--include-wip-pacts-since" ∷ rfc3339 t ∷ []

module _ {W Time TlsConfig : Type 0} (rfc3339 : Time → Text) where
  -- The statements behind the loop over selectors, up to the last test.
  unfoldable pub validate_broker : VerifyRequest W Time TlsConfig → Method → Method
  validate_broker v rest = do
    add_each (bytes "--custom-provider-header") v.custom_provider_headers
    add true (bytes "--format" ∷ bytes "json" ∷ [])
    fail_if (is_empty v.provider_base_url) (bytes "Provider base URL is mandatory")
    add true (bytes "--provider-base-url" ∷ v.provider_base_url ∷ [])
    add (present v.provider_states_setup_url)
        (bytes "--provider-states-setup-url" ∷ v.provider_states_setup_url ∷ [])
    add (present v.broker_username) (bytes "--broker-username" ∷ v.broker_username ∷ [])
    add (present v.broker_password) (bytes "--broker-password" ∷ v.broker_password ∷ [])
    fail_if (present v.broker_url && one_of_two v.broker_username v.broker_password)
        (bytes "both 'BrokerUsername' and 'BrokerPassword' must be supplied if one given")
    add (present v.broker_url) (bytes "--pact-broker-base-url" ∷ v.broker_url ∷ [])
    add (present v.broker_token) (bytes "--broker-token" ∷ v.broker_token ∷ [])
    fail_if (present v.broker_url && is_empty v.provider_version)
        (bytes "both 'ProviderVersion' must be supplied if 'BrokerURL' given")
    rest

  -- The statements behind the last test.
  unfoldable pub validate_options : VerifyRequest W Time TlsConfig → Method
  validate_options v = do
    add (present v.provider_version) (bytes "--provider_app_version" ∷ v.provider_version ∷ [])
    add (present v.provider) (bytes "--provider" ∷ v.provider ∷ [])
    add v.publish_verification_results (bytes "--publish_verification_results" ∷ bytes "true" ∷ [])
    add_each (bytes "--consumer-version-tag") v.tags
    add_each (bytes "--provider-version-tag") v.provider_tags
    add v.enable_pending (bytes "--enable-pending" ∷ [])
    add true (wip_flags rfc3339 v.include_wip_pacts_since)
    add (present v.pact_log_dir) (bytes "--log-dir" ∷ v.pact_log_dir ∷ [])
    add (present v.pact_log_level) (bytes "--log-level" ∷ v.pact_log_level ∷ [])
    done

  module _ (marshal : ConsumerVersionSelector → Result Text) where
    unfoldable pub validate_args : VerifyRequest W Time TlsConfig → Method
    validate_args v = do
      add (not (is_nil v.pact_urls)) v.pact_urls
      fail_if (is_nil v.pact_urls && is_empty v.broker_url)
          (bytes "One of 'PactURLs' or 'BrokerURL' must be specified")
      add_selectors marshal v.consumer_version_selectors
      validate_broker v (validate_options v)

    -- `Validate` starts from an empty `Args`, and keeps what it wrote when it fails.
    unfoldable pub validate :
        VerifyRequest W Time TlsConfig → VerifyRequest W Time TlsConfig × Option Error
    validate v = let (out, e) = validate_args v [] in (record v { args = out }, e)
