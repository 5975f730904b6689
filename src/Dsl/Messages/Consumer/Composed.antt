-- ===== src/Dsl/Messages/Consumer/Composed.antt =====
-- `VerifyMessageConsumerRaw` of dsl/pact.go with the client of dsl/client.go.
use pact_go.Common.{Text, Error, Result, ok, err, Option, none, some, [], ◌≡◌}
use pact_go.Types.MessageRequest.{PactReificationRequest}
use pact_go.Dsl.Messages.{Message}
use pact_go.Dsl.Pact.{Pact}
use pact_go.Dsl.Client.{PactClient, Host}
use pact_go.Dsl.Client.MessageTool.{ReificationResponse, reify_message, update_message_pact}
use pact_go.Dsl.Client.MessageTool.Accepted.{Updates}
use pact_go.Dsl.Client.MessageTool.Reified.{Reifies}
use pact_go.Dsl.Messages.Consumer.{MessageClient, generated, update_request}
use pact_go.Dsl.Messages.Consumer.Order.{IsNarrowed}

-- What is handed on of the result of `ReifyMessage`.
unfoldable pub raw_result :
    {Value : Type 0} → ReificationResponse Value → Option Error → Result Text
raw_result res none = ok res.response_raw
raw_result res (some e) = err e

abbrev pub reify_request :
    {Value Float : Type 0} → Message Value Float → PactReificationRequest (Option Value)
reify_request m = record { message = m.content; args = [] }

module _ {W Value Float : Type 0} (host : Host W)
    (decode : Text → Option (Option Value) × Option Error)
    (marshal_content : Option Value → Result Text)
    (marshal_message : Message Value Float → Result Text)
    (tools : MessageClient W PactClient Value Float) where
  -- The runs of pact-message of dsl/client.go. What the client changes of itself is left out: the
  -- settings of a service, which its next run replaces.
  abbrev pub with_client : MessageClient W PactClient Value Float
  with_client = record tools {
    reify_message = λ c content w.
        let (c', w', res, e) =
          reify_message host decode marshal_content c (record { message = content; args = [] }) w in
        (w', raw_result res e);
    update_message_pact = λ c request w.
        let (c', w', e) = update_message_pact host marshal_message c request w in (w', e);
  }

  -- pact-message reifies the content of the message, whose type is narrowed to what it prints. The
  -- handler takes the message that is generated, and pact-message then updates the pact file.
  pub record IsRecorded {Interaction : Type 0} (c : PactClient)
      (q : Pact PactClient Interaction (Message Value Float)) (m : Message Value Float)
      (handler : Message Value Float → W → W × Option Error) (w : W) (m' : Message Value Float)
      (w' : W) : Type 0 where
    pub behind_reify : W
    pub client : PactClient
    pub res : ReificationResponse (Option Value)
    pub reifies : Reifies host marshal_content decode c (reify_request m) w client behind_reify res
    pub narrowed_to : IsNarrowed with_client m res.response_raw m'
    pub behind_handler : W
    pub accepted : handler (generated m') behind_reify ≡ (behind_handler, none)
    pub last_client : PactClient
    pub updates : Updates host marshal_message c (update_request q m') behind_handler last_client w'
