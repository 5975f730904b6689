-- ===== src/Dsl/Client/MessageTool/Reified.antt =====
-- When `ReifyMessage` of dsl/client.go gives no error.
use pact_go.Common.{
  ◌↔◌, refl, Text, bytes, Error, Result, ok, Option, none, some, List, [], ◌∷◌, ◌≡◌, inl, inr, sym,
  ap, ◌∙◌, Result-cases, Option-cases,
}
use pact_go.Types.MessageRequest.{PactReificationRequest, validate_reification}
use pact_go.Dsl.Client.{PactClient, Host}
use pact_go.Dsl.Client.Pipes.{launch, read_pipes}
use pact_go.Dsl.Client.MessageTool.{
  ReificationResponse, empty_response, message_cmd, with_message_args, reified, reify_valid,
  reify_message,
}
use pact_go.Dsl.Client.MessageTool.Accepted.{Runs, fails, runs, run_message_inv, Runs-run_message}

module _ {W Value : Type 0} (host : Host W) (marshal : Value → Result Text)
    (decode : Text → Option Value × Option Error) where
  abbrev pub reify_args : Text → List Text
  reify_args body = bytes "reify" ∷ body ∷ []

  abbrev pub response_of : Text → ReificationResponse Value
  response_of std_out = record { response = (decode std_out).0; response_raw = std_out }

  -- The content has a JSON text, pact-message runs with it, and prints a JSON text.
  pub record Reifies (p : PactClient) (request : PactReificationRequest Value) (w : W)
      (p' : PactClient) (w' : W) (res : ReificationResponse Value) : Type 0 where
    pub body : Text
    pub encoded : marshal request.message ≡ ok body
    pub std_out : Text
    pub std_err : Text
    pub ran : Runs host (message_cmd host p (reify_args body)) w w' std_out std_err
    pub decoded : (decode std_out).1 ≡ none
    pub response : res ≡ response_of std_out
    pub left : p' ≡ with_message_args p (reify_args body)

  reify_encoded :
      (request : PactReificationRequest Value) (body : Text)
      → marshal request.message ≡ ok body
      → validate_reification marshal request ≡ (record request { args = reify_args body }, none)
  unfolding validate_reification
  reify_encoded request body q = rw (q, validate_reification)

  reify_validate_inv :
      (request v : PactReificationRequest Value)
      → validate_reification marshal request ≡ (v, none)
      → (body : Text) × (marshal request.message ≡ ok body)
        × (v ≡ record request { args = reify_args body })
  unfolding validate_reification
  reify_validate_inv request v h = elim (Result-cases (marshal request.message)) [
    | inl (e, q) ↦ absurd (cc (rw (q, validate_reification) at h))
    | inr (body, q) ↦ (body, q, sym (λ i. (h i).0) ∙ (λ i. (reify_encoded request body q i).0))
  ]

  reified_decoded :
      (std_out std_err : Text) (e : Option Error)
      → (decode std_out).1 ≡ none
      → reified host decode (std_out, std_err, e) ≡ (response_of std_out, e)
  unfolding reified
  reified_decoded std_out std_err e fine = rw (fine, reified)

  reified_inv :
      (std_out std_err : Text) (e : Option Error) (res : ReificationResponse Value)
      → reified host decode (std_out, std_err, e) ≡ (res, none)
      → ((decode std_out).1 ≡ none) × (e ≡ none) × (res ≡ response_of std_out)
  unfolding reified
  reified_inv std_out std_err e res h = elim (Option-cases (decode std_out).1) [
    | inl fine ↦
        let h' = sym (reified_decoded std_out std_err e fine) ∙ h in
        (fine, λ i. (h' i).1, λ i. (sym h' i).0)
    | inr (d, bad) ↦ elim (Option-cases e) [
      | inl ended ↦ absurd (cc (rw (bad, reified, ended) at h))
      | inr (x, failed) ↦ absurd (cc (rw (bad, reified, failed) at h))
    ]
  ]

  reify_inv :
      (p p' : PactClient) (request : PactReificationRequest Value)
      (v : PactReificationRequest Value × Option Error) (w w' : W) (res : ReificationResponse Value)
      → validate_reification marshal request ≡ v
      → reify_valid host decode p v w ≡ (p', w', res, none)
      → Reifies p request w p' w' res
  unfolding reify_valid
  reify_inv p p' request (v, some e) w w' res q h = absurd (cc)
  reify_inv p p' request (v, none) w w' res q h =
      let (body, encoded, same) = reify_validate_inv request v q in
      let same_args = ap (λ (x : PactReificationRequest Value). x.args) same in
      elim (run_message_inv host
        (λ e. let r : ReificationResponse Value × Option Error = (empty_response, some e) in r)
        (reified host decode) _ w w' (res, none) (λ i. ((h i).1, ((h i).2, (h i).3)))) [
          | fails e bad ↦ absurd (cc)
          | runs w₁ texts launched read fine ↦
              let (decoded, ended, response) = reified_inv texts.0 texts.1 texts.2 res fine in
              record {
                body = body;
                encoded = encoded;
                std_out = texts.0;
                std_err = texts.1;
                ran = record {
                  running = w₁;
                  launched = (λ i. launch host (message_cmd host p (sym same_args i)) w) ∙ launched;
                  read =
                      (λ i. read_pipes host (message_cmd host p (sym same_args i)) w₁)
                      ∙ read
                      ∙ (λ i. (w', ok (texts.0, texts.1, ended i)));
                };
                decoded = decoded;
                response = response;
                left = sym (λ i. (h i).0) ∙ ap (with_message_args p) same_args;
              }
        ]

  reifies :
      (p p' : PactClient) (request : PactReificationRequest Value) (w w' : W)
      (res : ReificationResponse Value)
      → Reifies p request w p' w' res
      → reify_message host decode marshal p request w ≡ (p', w', res, none)
  unfolding reify_message reify_valid
  reifies p p' request w w' res u =
      ap (λ v. reify_valid host decode p v w) (reify_encoded request u.body u.encoded)
      ∙ (λ i.
          let (w'', r) =
            (Runs-run_message host
                  (λ e.
                    let r : ReificationResponse Value × Option Error = (empty_response, some e) in
                    r)
                  (reified host decode) (message_cmd host p (reify_args u.body)) w w' u.std_out
                  u.std_err u.ran
                ∙ (λ j. (w', reified_decoded u.std_out u.std_err none u.decoded j)))
              i in
          (sym u.left i, w'', r.0, r.1))
      ∙ (λ i. (p', w', sym u.response i, none))

  -- `ReifyMessage` returns no error exactly if the message has a JSON text, and pact-message, launched
  -- with it, is read to its end, ends with no error and has printed a JSON text. The response is that
  -- text, raw and decoded.
  pub reify_message_iff :
      (p p' : PactClient) (request : PactReificationRequest Value) (w w' : W)
      (res : ReificationResponse Value)
      → (reify_message host decode marshal p request w ≡ (p', w', res, none))
        ↔ Reifies p request w p' w' res
  unfolding reify_message
  reify_message_iff p p' request w w' res =
      (reify_inv p p' request _ w w' res refl, reifies p p' request w w' res)
