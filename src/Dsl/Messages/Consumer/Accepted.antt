-- ===== src/Dsl/Messages/Consumer/Accepted.antt =====
-- When `VerifyMessageConsumerRaw` of dsl/pact.go gives no error, for any client.
use mathlib.Core.Path.{subst}
use pact_go.Common.{true, refl, Text, Error, ok, Option, none, some, ◌≡◌, ◌∙◌, sym}
use pact_go.Dsl.Messages.{Message}
use pact_go.Dsl.Pact.{Pact}
use pact_go.Dsl.Messages.Consumer.{MessageClient, Consumed, generated, update_request}
use pact_go.Dsl.Messages.Consumer.Order.{
  IsNarrowed, untyped, narrowed, IsConsumed, unreified, unnarrowed, rejected, updated,
}

module _ {W Client Value Float : Type 0} (tools : MessageClient W Client Value Float) where
  -- A narrowing leaves one message.
  IsNarrowed-unique :
      (m m₁ m₂ : Message Value Float) (raw : Text)
      → IsNarrowed tools m raw m₁
      → IsNarrowed tools m raw m₂
      → m₁ ≡ m₂
  IsNarrowed-unique m m₁ m₂ raw (untyped p) (untyped p') = refl
  IsNarrowed-unique m m₁ m₂ raw (untyped p) (narrowed value typed n) = absurd (cc (p, typed))
  IsNarrowed-unique m m₁ m₂ raw (narrowed value typed n) (untyped p) = absurd (cc (p, typed))
  IsNarrowed-unique m m₁ m₂ raw (narrowed v typed n) (narrowed v' typed' n') =
      let same = sym n ∙ n' in λ i. record m { message_type = (same i).0 }

  IsNarrowed-absurd :
      (m m' : Message Value Float) (raw : Text) (value : Option Value) (e : Error)
      → tools.is_typed m.message_type ≡ true
      → tools.narrow m.message_type raw ≡ (value, some e)
      → ¬ IsNarrowed tools m raw m'
  IsNarrowed-absurd m m' raw value e typed n (untyped p) = absurd (cc (p, typed))
  IsNarrowed-absurd m m' raw value e typed n (narrowed v t n') = absurd (cc (n, n'))

  module _ {Interaction : Type 0} (c : Client) (q : Pact Client Interaction (Message Value Float))
      (m : Message Value Float) (handler : Message Value Float → W → W × Option Error) (w : W) where
    -- The client reifies the message, its type is narrowed, and the handler takes it.
    pub record IsAccepted (m' : Message Value Float) (w₁ w₂ : W) (raw : Text) : Type 0 where
      pub reified : tools.reify_message c m.content w ≡ (w₁, ok raw)
      pub narrowed_to : IsNarrowed tools m raw m'
      pub accepted : handler (generated m') w₁ ≡ (w₂, none)

    pub IsConsumed-inv :
        (q' : Pact Client Interaction (Message Value Float)) (m' : Message Value Float) (w' : W)
        (r : Consumed W Client Interaction Value Float)
        → IsConsumed tools c q m handler w r
        → r ≡ (q', m', w', none)
        → (w₁ : W) × (w₂ : W) × (raw : Text) × IsAccepted m' w₁ w₂ raw
          × (tools.update_message_pact c (update_request q m') w₂ ≡ (w', none))
          × (q ≡ q')
    IsConsumed-inv q' m' w' r (unreified w₁ e reified) h = absurd (cc)
    IsConsumed-inv q' m' w' r (unnarrowed w₁ raw value e reified typed n) h = absurd (cc)
    IsConsumed-inv q' m' w' r (rejected w₁ w₂ raw m₁ e reified n said) h = absurd (cc)
    IsConsumed-inv q' m' w' r (updated w₁ w₂ w₃ raw m₁ e reified n said ran) h =
        let same : m₁ ≡ m' = λ i. (h i).1 in
        (
          w₁,
          w₂,
          raw,
          record {
            reified = reified;
            narrowed_to = subst (IsNarrowed tools m raw) same n;
            accepted = (λ i. handler (generated (sym same i)) w₁) ∙ said;
          },
          (λ i. tools.update_message_pact c (update_request q (sym same i)) w₂)
              ∙ ran
              ∙ (λ i. ((h i).2, (h i).3)),
          λ i. (h i).0,
        )

    pub IsConsumed-accepted :
        (m' : Message Value Float) (w₁ w₂ w' : W) (raw : Text)
        (r : Consumed W Client Interaction Value Float)
        → IsAccepted m' w₁ w₂ raw
        → tools.update_message_pact c (update_request q m') w₂ ≡ (w', none)
        → IsConsumed tools c q m handler w r
        → r ≡ (q, m', w', none)
    IsConsumed-accepted m' w₁ w₂ w' raw r a done (unreified v₁ e reified) =
        absurd (cc (a.reified, reified))
    IsConsumed-accepted m' w₁ w₂ w' raw r a done (unnarrowed v₁ raw' value e reified typed n) =
        let same : raw ≡ raw' = cc (a.reified) in
        absurd (
          IsNarrowed-absurd m m' raw' value e typed n
            (subst (λ x. IsNarrowed tools m x m') same a.narrowed_to))
    IsConsumed-accepted m' w₁ w₂ w' raw r a done (rejected v₁ v₂ raw' m₁ e reified n said) =
        let same : raw ≡ raw' = cc (a.reified) in
        let msg =
          IsNarrowed-unique m m' m₁ raw' (subst (λ x. IsNarrowed tools m x m') same a.narrowed_to)
            n in
        absurd (cc (a.reified, a.accepted, msg))
    IsConsumed-accepted m' w₁ w₂ w' raw r a done (updated v₁ v₂ v₃ raw' m₁ e reified n said ran) =
        let same : raw ≡ raw' = cc (a.reified) in
        let msg =
          IsNarrowed-unique m m' m₁ raw' (subst (λ x. IsNarrowed tools m x m') same a.narrowed_to)
            n in
        cc (a.reified, a.accepted, msg)
