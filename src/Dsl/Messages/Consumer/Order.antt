-- ===== src/Dsl/Messages/Consumer/Order.antt =====
-- The order of the calls of `VerifyMessageConsumerRaw` of dsl/pact.go.
use pact_go.Common.{
  given-some, Text, Error, Result, ok, err, returns, true, false, Option, none, some, [], ◌≡◌, inl,
  inr, refl, ap, Bool-cases,
}
use pact_go.Dsl.Messages.{Message}
use pact_go.Dsl.Pact.{Pact, System}
use pact_go.Dsl.Pact.Setup.{ToolsPass, setup_only_returns}
use pact_go.Dsl.Pact.Ready.{IsConfigured, setup_only-IsConfigured}
use pact_go.Dsl.Messages.Consumer.{
  MessageClient, Consumed, generated, update_request, not_reified, not_narrowed, update_pact,
  yield_message, narrow_type, consume, verify_message_consumer_raw,
}

module _ {W Client Value Float : Type 0} (tools : MessageClient W Client Value Float) where
  -- The message behind a narrowing of its type that succeeds, or that is not called for.
  pub data IsNarrowed (m : Message Value Float) (raw : Text) : Message Value Float → Type 0 where
    untyped : tools.is_typed m.message_type ≡ false → IsNarrowed m raw m
    narrowed :
        (value : Option Value)
        → tools.is_typed m.message_type ≡ true
        → tools.narrow m.message_type raw ≡ (value, none)
        → IsNarrowed m raw (record m { message_type = value })

module _ {W Client Interaction Value Float : Type 0}
    (tools : MessageClient W Client Value Float) where
  -- What a test of a message consumer calls, with the client and the `Pact` that are set up, from the
  -- world behind the set-up.
  pub data IsConsumed (c : Client) (q : Pact Client Interaction (Message Value Float))
      (m : Message Value Float) (handler : Message Value Float → W → W × Option Error) (w : W)
      : Consumed W Client Interaction Value Float → Type 0 where
    unreified :
        (w₁ : W) (e : Error)
        → tools.reify_message c m.content w ≡ (w₁, err e)
        → IsConsumed c q m handler w (q, m, w₁, some (not_reified e))
    unnarrowed :
        (w₁ : W) (raw : Text) (value : Option Value) (e : Error)
        → tools.reify_message c m.content w ≡ (w₁, ok raw)
        → tools.is_typed m.message_type ≡ true
        → tools.narrow m.message_type raw ≡ (value, some e)
        → IsConsumed c q m handler w (
          q,
          record m { message_type = value },
          w₁,
          some (not_narrowed (tools.type_name m.message_type) e),
        )
    rejected :
        (w₁ w₂ : W) (raw : Text) (m' : Message Value Float) (e : Error)
        → tools.reify_message c m.content w ≡ (w₁, ok raw)
        → IsNarrowed tools m raw m'
        → handler (generated m') w₁ ≡ (w₂, some e)
        → IsConsumed c q m handler w (q, m', w₂, some e)
    updated :
        (w₁ w₂ w₃ : W) (raw : Text) (m' : Message Value Float) (e : Option Error)
        → tools.reify_message c m.content w ≡ (w₁, ok raw)
        → IsNarrowed tools m raw m'
        → handler (generated m') w₁ ≡ (w₂, none)
        → tools.update_message_pact c (update_request q m') w₂ ≡ (w₃, e)
        → IsConsumed c q m handler w (q, m', w₃, e)

  module _ (c : Client) (q : Pact Client Interaction (Message Value Float))
      (m : Message Value Float) (handler : Message Value Float → W → W × Option Error) (w : W) where
    module _ (w₁ : W) (raw : Text)
        (reified : tools.reify_message c m.content w ≡ (w₁, ok raw)) where
      update_pact-IsConsumed :
          (m' : Message Value Float) (r : W × Option Error)
          → IsNarrowed tools m raw m'
          → handler (generated m') w₁ ≡ r
          → IsConsumed c q m handler w (update_pact tools c q m' r)
      unfolding update_pact
      update_pact-IsConsumed m' (w₂, some e) n h = rejected w₁ w₂ raw m' e reified n h
      update_pact-IsConsumed m' (w₂, none) n h = updated w₁ w₂ _ raw m' _ reified n h refl

      yield_message-IsConsumed :
          (r : Option Value × Option Error)
          → tools.is_typed m.message_type ≡ true
          → tools.narrow m.message_type raw ≡ r
          → IsConsumed c q m handler w (
              yield_message tools handler c q
                (tools.type_name m.message_type)
                (record m { message_type = r.0 })
                w₁
                r.1)
      unfolding yield_message
      yield_message-IsConsumed (value, some e) typed n = unnarrowed w₁ raw value e reified typed n
      yield_message-IsConsumed (value, none) typed n =
          update_pact-IsConsumed (record m { message_type = value }) _ (narrowed value typed n) refl

      untyped-IsConsumed :
          tools.is_typed m.message_type ≡ false
          → IsConsumed c q m handler w (yield_message tools handler c q [] m w₁ none)
      unfolding yield_message
      untyped-IsConsumed plain = update_pact-IsConsumed m _ (untyped plain) refl

    narrow_type-IsConsumed :
        (r : W × Result Text)
        → tools.reify_message c m.content w ≡ r
        → IsConsumed c q m handler w (narrow_type tools handler c q m r)
    unfolding narrow_type
    narrow_type-IsConsumed (w₁, err e) reified = unreified w₁ e reified
    narrow_type-IsConsumed (w₁, ok raw) reified =
        elim (Bool-cases (tools.is_typed m.message_type)) [
          | inl typed ↦
              rw (typed, narrow_type)
                (yield_message-IsConsumed w₁ raw reified (tools.narrow m.message_type raw) typed
                  refl)
          | inr plain ↦ rw (plain, narrow_type) (untyped-IsConsumed w₁ raw reified plain)
        ]

  consume-some :
      (handler : Message Value Float → W → W × Option Error) (client : Option Client) (c : Client)
      (q : Pact Client Interaction (Message Value Float)) (m : Message Value Float) (w : W)
      → client ≡ some c
      → consume tools handler client q m w
        ≡ returns (narrow_type tools handler c q m (tools.reify_message c m.content w))
  unfolding consume
  consume-some handler none c q m w given = absurd (cc)
  consume-some handler (some d) c q m w given =
      let same : d ≡ c = ap (λ (o : Option Client). elim o [ some x ↦ x | none ↦ c ]) given in
      rw same refl

  -- If the tools are not to be checked or the check finds no fault, `VerifyMessageConsumerRaw`
  -- returns. With the `Pact` configured, it has the client reify the message, narrows its type if it
  -- has one, calls the handler on the message that is generated, and has the client update the pact
  -- file, up to the first that fails, whose error is the result: a message that the handler rejects
  -- is not written.
  pub verify_message_consumer_raw-IsConsumed :
      (sys : System W Client) (p : Pact Client Interaction (Message Value Float))
      (m : Message Value Float) (handler : Message Value Float → W → W × Option Error) (w : W)
      → ToolsPass sys p w
      → (c : Client) × (q : Pact Client Interaction (Message Value Float)) × (w₁ : W)
        × (r : Consumed W Client Interaction Value Float) × IsConfigured sys p q
        × (q.pact_client ≡ some c)
        × (verify_message_consumer_raw tools sys p m handler w ≡ returns r)
        × IsConsumed c q m handler w₁ r
  unfolding verify_message_consumer_raw
  verify_message_consumer_raw-IsConsumed sys p m handler w pass =
      let (q, w₁, prepared) = setup_only_returns sys p w pass in
      let config = setup_only-IsConfigured sys p q w w₁ prepared in
      let (c, given) = given-some q.pact_client config.client in
      (
        c,
        q,
        w₁,
        narrow_type tools handler c q m (tools.reify_message c m.content w₁),
        config,
        given,
        rw prepared (consume-some handler q.pact_client c q m w₁ given),
        narrow_type-IsConsumed c q m handler w₁ (tools.reify_message c m.content w₁) refl,
      )
