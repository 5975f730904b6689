-- ===== src/Dsl/Publish.antt =====
-- dsl/publish.go: the publishing of pacts to a broker.
pub mod Composed
pub mod Sent
use pact_go.Common.{Text, bytes, Error, Option, none, some}
use pact_go.Types.PublishRequest.{PublishRequest, validate}
use pact_go.Dsl.Pact.{or_text}

pub record Publisher (Client : Type 0) : Type 0 where
  pub pact_client : Option Client
  pub log_level : Text
  pub log_filter : Option Text

-- `setupLogging`: a new filter keeps the level at which it is made.
unfoldable pub publisher_logging :
    {Client : Type 0} → Option Text → Publisher Client → Publisher Client
publisher_logging (some filter) p = p
publisher_logging none p = record p {
  log_level = or_text (bytes "INFO") p.log_level;
  log_filter = some (or_text (bytes "INFO") p.log_level);
}

-- `publish_pacts` is the method of the client.
module _ {W Client : Type 0} (new_client : Client)
    (publish_pacts : Client → PublishRequest → W → W × Option Error) where
  -- Behind the validation, by the client that is given.
  unfoldable pub publish_with : Client → PublishRequest × Option Error → W → W × Option Error
  publish_with c (request, some e) w = (w, some e)
  publish_with c (request, none) w = publish_pacts c request w

  unfoldable pub client_of : Option Client → Client
  client_of none = new_client
  client_of (some c) = c

  unfoldable pub publish :
      Publisher Client → PublishRequest → W → Publisher Client × W × Option Error
  publish p request w =
      let c = client_of p.pact_client in
      let (w', e) = publish_with c (validate request) w in
      (record (publisher_logging p.log_filter p) { pact_client = some c }, w', e)
