-- ===== src/Dsl/Messages/Consumer.antt =====
-- dsl/pact.go `VerifyMessageConsumerRaw`: the test of a message consumer.
pub mod Accepted
pub mod Composed
pub mod Order
use pact_go.Common.{
  ℕ, Text, bytes, Error, Result, ok, err, Outcome, returns, panics, ◌>>=◌, Bool, true, false,
  Option, none, some, List, [], ◌∷◌, ◌++◌, if◌then◌else◌,
}
use pact_go.Types.MessageRequest.{PactMessageRequest}
use pact_go.Dsl.Messages.{Message}
use pact_go.Dsl.Pact.{Pact, System, setup}

-- What the code calls of the client, of `reflect` and of `encoding/json`. `is_typed` is the test
-- `t != nil && t.Name() != "interface"` on the type of a value, `narrow` is `json.Unmarshal` into a
-- variable that holds a value.
pub record MessageClient (W Client Value Float : Type 0) : Type 0 where
  pub reify_message : Client → Option Value → W → W × Result Text
  pub is_typed : Option Value → Bool
  pub type_name : Option Value → Text
  pub narrow : Option Value → Text → Option Value × Option Error
  pub update_message_pact : Client → PactMessageRequest (Message Value Float) → W → W × Option Error

-- What is left: the `Pact`, the message of the caller, the world and the result.
abbrev pub Consumed : Type 0 → Type 0 → Type 0 → Type 0 → Type 0 → Type 0
Consumed W Client Interaction Value Float =
    Pact Client Interaction (Message Value Float) × Message Value Float × W × Option Error

-- The message that the handler gets.
abbrev pub generated : {Value Float : Type 0} → Message Value Float → Message Value Float
generated m = record m {
  content = m.message_type;
  content_raw = none;
  message_type = none;
  args = [];
}

abbrev pub update_request :
    {Client Interaction Value Float : Type 0}
    → Pact Client Interaction (Message Value Float)
    → Message Value Float
    → PactMessageRequest (Message Value Float)
update_request p m = record {
  message = m;
  consumer = p.consumer;
  provider = p.provider;
  pact_dir = p.pact_dir;
  args = [];
}

abbrev pub not_reified : Error → Error
not_reified e = bytes "unable to convert consumer test to a valid JSON representation: " ++ e

abbrev pub not_narrowed : Text → Error → Error
not_narrowed name e = bytes "unable to narrow type to " ++ name ++ bytes ": " ++ e

module _ {W Client Interaction Value Float : Type 0}
    (tools : MessageClient W Client Value Float) where
  -- Behind the handler.
  unfoldable pub update_pact :
      Client
      → Pact Client Interaction (Message Value Float)
      → Message Value Float
      → W × Option Error
      → Consumed W Client Interaction Value Float
  update_pact c p m (w, some e) = (p, m, w, some e)
  update_pact c p m (w, none) =
      let (w', e) = tools.update_message_pact c (update_request p m) w in (p, m, w', e)

  module _ (handler : Message Value Float → W → W × Option Error) (c : Client)
      (p : Pact Client Interaction (Message Value Float)) where
    -- Behind the narrowing of the type, which had this name.
    unfoldable pub yield_message :
        Text → Message Value Float → W → Option Error → Consumed W Client Interaction Value Float
    yield_message name m w (some e) = (p, m, w, some (not_narrowed name e))
    yield_message name m w none = update_pact c p m (handler (generated m) w)

    -- Behind the call of `ReifyMessage`.
    unfoldable pub narrow_type :
        Message Value Float → W × Result Text → Consumed W Client Interaction Value Float
    narrow_type m (w, err e) = (p, m, w, some (not_reified e))
    narrow_type m (w, ok raw) =
        if tools.is_typed m.message_type
        then (let (value, e) = tools.narrow m.message_type raw in
            yield_message (tools.type_name m.message_type) (record m { message_type = value }) w e)
        else yield_message [] m w none

  unfoldable pub consume :
      (Message Value Float → W → W × Option Error)
      → Option Client
      → Pact Client Interaction (Message Value Float)
      → Message Value Float
      → W
      → Outcome (Consumed W Client Interaction Value Float)
  consume handler none p m w = panics
  consume handler (some c) p m w =
      returns (narrow_type handler c p m (tools.reify_message c m.content w))

  unfoldable pub verify_message_consumer_raw :
      System W Client
      → Pact Client Interaction (Message Value Float)
      → Message Value Float
      → (Message Value Float → W → W × Option Error)
      → W
      → Outcome (Consumed W Client Interaction Value Float)
  verify_message_consumer_raw sys p message handler w = do
    (p', w') ← setup sys false p w
    consume handler p'.pact_client p' message w'
