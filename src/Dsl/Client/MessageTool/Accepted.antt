-- ===== src/Dsl/Client/MessageTool/Accepted.antt =====
-- When the runs of pact-message of dsl/client.go give no error.
use pact_go.Common.{
  Text, bytes, Error, Result, ok, err, Option, none, some, List, [], ◌∷◌, ◌≡◌, ◌↔◌, inl, inr, refl,
  sym, ap, ◌∙◌, Result-cases,
}
use pact_go.Types.MessageRequest.{PactMessageRequest, validate_message}
use pact_go.Client.ServiceManager.{Cmd}
use pact_go.Dsl.Client.{PactClient, Host}
use pact_go.Dsl.Client.Pipes.{launch, read_pipes}
use pact_go.Dsl.Client.MessageTool.{
  update_error, message_cmd, with_message_args, behind_output, behind_launch, run_message,
  update_message_pact, update_valid,
}

-- The command was launched, its two texts were read to their ends, and it ended with no error.
pub record Runs {W : Type 0} (host : Host W) (cmd : Cmd) (w w' : W) (std_out std_err : Text)
    : Type 0 where
  pub running : W
  pub launched : launch host cmd w ≡ (running, none)
  pub read : read_pipes host cmd running ≡ (w', ok (std_out, std_err, none))

module _ {W A : Type 0} (host : Host W) (failed : Error → A)
    (read : Text × Text × Option Error → A) where
  -- A run fails, or what it gives is what its output reads as.
  pub data RunCases (cmd : Cmd) (w w' : W) (a : A) : Type 0 where
    fails : (e : Error) → failed e ≡ a → RunCases cmd w w' a
    runs :
        (w₁ : W) (texts : Text × Text × Option Error)
        → launch host cmd w ≡ (w₁, none)
        → read_pipes host cmd w₁ ≡ (w', ok texts)
        → read texts ≡ a
        → RunCases cmd w w' a

  behind_inv :
      (cmd : Cmd) (w w₁ w' : W) (a : A) (r : W × Result (Text × Text × Option Error))
      → launch host cmd w ≡ (w₁, none)
      → read_pipes host cmd w₁ ≡ r
      → behind_output host failed read r ≡ (w', a)
      → RunCases cmd w w' a
  unfolding behind_output
  behind_inv cmd w w₁ w' a (w₂, err e) launched q h = fails e (λ i. (h i).1)
  behind_inv cmd w w₁ w' a (w₂, ok texts) launched q h =
      runs w₁ texts launched (q ∙ (λ i. ((h i).0, ok texts))) (λ i. (h i).1)

  launched_inv :
      (cmd : Cmd) (w w' : W) (a : A) (r : W × Option Error)
      → launch host cmd w ≡ r
      → behind_launch host failed read cmd r ≡ (w', a)
      → RunCases cmd w w' a
  unfolding behind_launch
  launched_inv cmd w w' a (w₁, some e) q h = fails e (λ i. (h i).1)
  launched_inv cmd w w' a (w₁, none) q h = behind_inv cmd w w₁ w' a _ q refl h

  pub run_message_inv :
      (cmd : Cmd) (w w' : W) (a : A)
      → run_message host failed read cmd w ≡ (w', a)
      → RunCases cmd w w' a
  unfolding run_message
  run_message_inv cmd w w' a h = launched_inv cmd w w' a _ refl h

  pub Runs-run_message :
      (cmd : Cmd) (w w' : W) (std_out std_err : Text)
      → Runs host cmd w w' std_out std_err
      → run_message host failed read cmd w ≡ (w', read (std_out, std_err, none))
  unfolding run_message behind_launch behind_output
  Runs-run_message cmd w w' std_out std_err r =
      ap (behind_launch host failed read cmd) r.launched
      ∙ ap (behind_output host failed read) r.read

-- The error of a run is nil exactly if that of the process is.
update_error-none :
    (texts : Text × Text × Option Error) → update_error texts ≡ none → texts.2 ≡ none
update_error-none (std_out, std_err, none) h = refl
update_error-none (std_out, std_err, some e) h = absurd (cc)

module _ {W Value : Type 0} (host : Host W) (marshal : Value → Result Text) where
  abbrev pub update_args : PactMessageRequest Value → Text → List Text
  update_args request body =
      bytes "update"
      ∷ body
      ∷ bytes "--consumer"
      ∷ request.consumer
      ∷ bytes "--provider"
      ∷ request.provider
      ∷ bytes "--pact-dir"
      ∷ request.pact_dir
      ∷ bytes "--pact-specification-version"
      ∷ bytes "3"
      ∷ []

  -- The message has a JSON text, and pact-message runs with it and the names and the directory of the
  -- request.
  pub record Updates (p : PactClient) (request : PactMessageRequest Value) (w : W) (p' : PactClient)
      (w' : W) : Type 0 where
    pub body : Text
    pub encoded : marshal request.message ≡ ok body
    pub std_out : Text
    pub std_err : Text
    pub ran : Runs host (message_cmd host p (update_args request body)) w w' std_out std_err
    pub left : p' ≡ with_message_args p (update_args request body)

  validate_encoded :
      (request : PactMessageRequest Value) (body : Text)
      → marshal request.message ≡ ok body
      → validate_message marshal request
        ≡ (record request { args = update_args request body }, none)
  unfolding validate_message
  validate_encoded request body q = rw (q, validate_message)

  validate_inv :
      (request v : PactMessageRequest Value)
      → validate_message marshal request ≡ (v, none)
      → (body : Text) × (marshal request.message ≡ ok body)
        × (v ≡ record request { args = update_args request body })
  unfolding validate_message
  validate_inv request v h = elim (Result-cases (marshal request.message)) [
    | inl (e, q) ↦ absurd (cc (rw (q, validate_message) at h))
    | inr (body, q) ↦ (body, q, sym (λ i. (h i).0) ∙ (λ i. (validate_encoded request body q i).0))
  ]

  update_inv :
      (p p' : PactClient) (request : PactMessageRequest Value)
      (v : PactMessageRequest Value × Option Error) (w w' : W)
      → validate_message marshal request ≡ v
      → update_valid host p v w ≡ (p', w', none)
      → Updates p request w p' w'
  unfolding update_valid
  update_inv p p' request (v, some e) w w' q h = absurd (cc)
  update_inv p p' request (v, none) w w' q h =
      let (body, encoded, same) = validate_inv request v q in
      let same_args = ap (λ (x : PactMessageRequest Value). x.args) same in
      elim (run_message_inv host some update_error _ w w' none (λ i. ((h i).1, (h i).2))) [
        | fails e bad ↦ absurd (cc)
        | runs w₁ texts launched read fine ↦ record {
          body = body;
          encoded = encoded;
          std_out = texts.0;
          std_err = texts.1;
          ran = record {
            running = w₁;
            launched = (λ i. launch host (message_cmd host p (sym same_args i)) w) ∙ launched;
            read =
                (λ i. read_pipes host (message_cmd host p (sym same_args i)) w₁)
                ∙ read
                ∙ (λ i. (w', ok (texts.0, texts.1, update_error-none texts fine i)));
          };
          left = sym (λ i. (h i).0) ∙ ap (with_message_args p) same_args;
        }
      ]

  updates :
      (p p' : PactClient) (request : PactMessageRequest Value) (w w' : W)
      → Updates p request w p' w'
      → update_message_pact host marshal p request w ≡ (p', w', none)
  unfolding update_message_pact update_valid
  updates p p' request w w' u =
      ap (λ v. update_valid host p v w) (validate_encoded request u.body u.encoded) ∙ (λ i.
        let (w'', e) =
          Runs-run_message host some update_error (message_cmd host p (update_args request u.body))
            w w' u.std_out u.std_err u.ran i in
        (sym u.left i, w'', e))

  -- `UpdateMessagePact` returns no error exactly if the message has a JSON text, and pact-message,
  -- launched with it and the names and the directory of the request, is read to its end and ends with
  -- no error.
  pub update_message_pact_iff :
      (p p' : PactClient) (request : PactMessageRequest Value) (w w' : W)
      → (update_message_pact host marshal p request w ≡ (p', w', none)) ↔ Updates p request w p' w'
  unfolding update_message_pact
  update_message_pact_iff p p' request w w' =
      (update_inv p p' request _ w w' refl, updates p p' request w w')
