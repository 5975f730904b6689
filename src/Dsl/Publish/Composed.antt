-- ===== src/Dsl/Publish/Composed.antt =====
-- `Publish` of dsl/publish.go with the client of dsl/client.go.
use pact_go.Common.{ℕ, Error, ok, Option, none, some, ◌≡◌}
use pact_go.Types.PublishRequest.{PublishRequest}
use pact_go.Types.PublishRequest.CommandLine.{IsComplete, command_line}
use pact_go.Client.ServiceManager.{Cmd, command}
use pact_go.Client.Services.{new_publish_service}
use pact_go.Dsl.Client.{PactClient, Host}
use pact_go.Dsl.Client.Servers.{publish_pacts}
use pact_go.Dsl.Publish.{Publisher, publisher_logging, client_of, publish}

module _ {W : Type 0} (host : Host W) where
  -- `PublishPacts` of the client. What it changes of itself is left out: the settings of a service,
  -- which its next run replaces.
  abbrev pub client_publish : PactClient → PublishRequest → W → W × Option Error
  client_publish c request w = let (c', w', e) = publish_pacts host c request w in (w', e)

  -- The command of pact-broker for a request, before it is started.
  abbrev pub broker_cmd : PactClient → PublishRequest → Cmd
  broker_cmd c request =
      command host.environ (new_publish_service (command_line request) c.publish_svc_manager)

  -- pact-broker starts with the command line of the request, and ends with no error.
  pub record Publishes (c : PactClient) (request : PublishRequest) (w w' : W) : Type 0 where
    pub complete : IsComplete request
    pub pid : ℕ
    pub started : W
    pub launched : host.spawn (broker_cmd c request) w ≡ (started, ok pid)
    pub ended :
        host.wait (record (broker_cmd c request) { process = some pid }) started ≡ (w', none)

  -- What a call leaves of the publisher.
  abbrev pub with_publisher : Publisher PactClient → PactClient → Publisher PactClient
  with_publisher p c = record (publisher_logging p.log_filter p) { pact_client = some c }

  module _ (new_client : PactClient) where
    abbrev pub publisher_client : Publisher PactClient → PactClient
    publisher_client p = client_of new_client client_publish p.pact_client

    abbrev pub library_publish :
        Publisher PactClient → PublishRequest → W → Publisher PactClient × W × Option Error
    library_publish = publish new_client client_publish
