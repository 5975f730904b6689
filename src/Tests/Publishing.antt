-- ===== src/Tests/Publishing.antt =====
-- The publishing of pacts with the client of the library on a concrete host.
use pact_go.Common.{ℕ, bytes, Error, false, Option, none, some, [], ◌∷◌, ◌≡◌, refl}
use pact_go.Common.Steps.{unless_failed}
use pact_go.Types.PublishRequest.{PublishRequest, validate, validate_args}
use pact_go.Types.Args.{add, add_each, fail_if, done, ◌>>◌}
use pact_go.Client.ServiceManager.{command}
use pact_go.Client.Services.{new_publish_service, start, settle}
use pact_go.Dsl.Client.{PactClient, Host}
use pact_go.Dsl.Client.Servers.{publish_pacts}
use pact_go.Dsl.Publish.{Publisher, publisher_logging, publish_with, client_of, publish}
use pact_go.Dsl.Publish.Composed.{with_publisher, library_publish}
use pact_go.Tests.Client
use pact_go.Tests.Client.{Log, client}

abbrev ending : Option ℕ → Option Error
ending none = some (bytes "exec: not started")
ending (some pid) = none

-- A wait for a command that did not start fails.
abbrev host : Host Log
host = record Client.host { wait = λ cmd w. (4 ∷ w, ending cmd.process) }

abbrev publisher : Publisher PactClient
publisher = record { pact_client = none; log_level = []; log_filter = none }

abbrev pacts : PublishRequest
pacts = record {
  pact_urls = bytes "./pacts" ∷ [];
  pact_broker = bytes "http://broker";
  broker_username = [];
  broker_password = [];
  broker_token = [];
  consumer_version = bytes "1";
  tags = bytes "dev" ∷ [];
  verbose = false;
  args = [];
}

published :
    library_publish host client publisher pacts []
    ≡ (with_publisher host publisher client, 4 ∷ 1 ∷ [], none)
unfolding publish publish_with publish_pacts client_of publisher_logging start settle command
    new_publish_service validate validate_args add add_each fail_if done ◌>>◌ unless_failed bytes
published = refl
