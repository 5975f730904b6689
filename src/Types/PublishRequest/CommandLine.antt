-- ===== src/Types/PublishRequest/CommandLine.antt =====
-- When the `Validate` method of types/publish_request.go succeeds, the command line that it builds,
-- and the error that it returns otherwise.
use pact_go.Common.{
  Text, bytes, is_empty, Error, Bool, false, ◌&&◌, Option, none, some, List, [], ◌∷◌, ◌++◌,
  append_assoc, ◌≡◌, ◌≢◌, ◌↔◌, sym, ap, ◌∙◌, arith, if◌then◌else◌,
}
use pact_go.Common.Lists.{is_nil}
use pact_go.Types.Args.{given, each, method_laws, if-error}
use pact_go.Types.VerifyRequest.{present, one_of_two}
use pact_go.Types.PublishRequest.{PublishRequest, validate_args, validate}

pub record IsComplete (p : PublishRequest) : Type 0 where
  pub pacts : p.pact_urls ≢ []
  pub broker : p.pact_broker ≢ []
  pub credentials : (p.broker_username ≡ []) ↔ (p.broker_password ≡ [])
  pub version : p.consumer_version ≢ []

abbrev pub command_line : PublishRequest → List Text
command_line p =
    p.pact_urls
    ++ (given (present p.broker_username) (bytes "--broker-username" ∷ p.broker_username ∷ [])
        ++ (given (present p.broker_password) (bytes "--broker-password" ∷ p.broker_password ∷ [])
            ++ (bytes "--broker-base-url" ∷ p.pact_broker ∷ [])
            ++ given (present p.broker_token) (bytes "--broker-token" ∷ p.broker_token ∷ [])
            ++ (bytes "--consumer-app-version" ∷ p.consumer_version ∷ [])
            ++ each (bytes "--tag") p.tags
            ++ given p.verbose (bytes "--verbose" ∷ [])))

-- The first message of a table whose test holds.
abbrev pub first_fault : List (Bool × Text) → Option Error
first_fault [] = none
first_fault ((bad, message) ∷ rest) = if bad then some message else first_fault rest

abbrev pub faults : PublishRequest → List (Bool × Text)
faults p =
    (is_nil p.pact_urls, bytes "'PactURLs' is mandatory")
    ∷ (
      present p.pact_broker && one_of_two p.broker_username p.broker_password,
      bytes "both 'BrokerUsername' and 'BrokerPassword' must be supplied if one given",
    )
    ∷ (is_empty p.pact_broker, bytes "'PactBroker' is mandatory")
    ∷ (is_empty p.consumer_version, bytes "'ConsumerVersion' is mandatory")
    ∷ []

pub first_fault-IsComplete : (p : PublishRequest) → (first_fault (faults p) ≡ none) ↔ IsComplete p
first_fault-IsComplete p = (
  λ e. record {
    pacts = ground arith;
    broker = ground arith;
    credentials = ground arith;
    version = ground arith;
  },
  λ c. grind (arith, c.pacts, c.broker, c.credentials, c.version),
)

-- The error that `Validate` returns is the first of the table's whose test holds: no pacts, then one
-- of the two credentials without the other, then no broker, then no consumer version. It returns
-- nil if none holds.
pub validate-first_fault : (p : PublishRequest) → (validate p).1 ≡ first_fault (faults p)
unfolding validate validate_args
validate-first_fault p = simp (method_laws, if-error)

faults_parts :
    (p : PublishRequest)
    → first_fault (faults p) ≡ none
    → (is_nil p.pact_urls ≡ false)
      × (one_of_two p.broker_username p.broker_password ≡ false)
      × (is_empty p.pact_broker ≡ false)
      × (is_empty p.consumer_version ≡ false)
faults_parts p e = ground arith

-- If `Validate` returns nil, `Args` hold the command line.
validate_args_lem :
    (p : PublishRequest)
    → first_fault (faults p) ≡ none
    → validate_args p [] ≡ (command_line p, none)
unfolding validate_args
validate_args_lem p e =
    let (q, r, s, t) = faults_parts p e in simp (method_laws, append_assoc, q, r, s, t)

-- `Validate` returns nil exactly if the request has pacts, a broker, a consumer version and both or
-- neither of the credentials; it then changes `Args` alone, to the command line of the request.
pub publish_validate_iff :
    (p : PublishRequest) → (validate p ≡ (record p { args = command_line p }, none)) ↔ IsComplete p
publish_validate_iff p = (
  λ e.
      (first_fault-IsComplete p).0
        (sym (validate-first_fault p) ∙ ap (λ (r : PublishRequest × Option Error). r.1) e),
  λ c.
      unfold validate in
      ap (λ (r : List Text × Option Error). (record p { args = r.0 }, r.1))
        (validate_args_lem p ((first_fault-IsComplete p).1 c)),
)
