-- ===== src/Dsl/Client/MessageTool.antt =====
-- dsl/client.go `UpdateMessagePact` and `ReifyMessage`: the runs of pact-message.
pub mod Accepted
pub mod Reified
use pact_go.Common.{Text, bytes, Error, Result, ok, err, Option, none, some, List, [], ◌∷◌, ◌++◌}
use pact_go.Types.MessageRequest.{
  PactMessageRequest, PactReificationRequest, validate_message, validate_reification,
}
use pact_go.Client.ServiceManager.{ServiceManager, Cmd, command}
use pact_go.Client.Services.{new_message_service}
use pact_go.Dsl.Client.{PactClient, Host}
use pact_go.Dsl.Client.Pipes.{launch, read_pipes, separated}

-- types/reification_response.go
pub record ReificationResponse (Value : Type 0) : Type 0 where
  pub response : Option Value
  pub response_raw : Text

abbrev pub message_error : Error → Text → Text → Error
message_error = separated (bytes "error creating message: ")

abbrev pub update_error : Text × Text × Option Error → Option Error
update_error (std_out, std_err, none) = none
update_error (std_out, std_err, some e) = some (message_error e std_err std_out)

abbrev pub empty_response : {Value : Type 0} → ReificationResponse Value
empty_response = record { response = none; response_raw = [] }

-- The command of pact-message.
abbrev pub message_cmd : {W : Type 0} → Host W → PactClient → List Text → Cmd
message_cmd host p args = command host.environ (new_message_service args p.message_svc_manager)

abbrev pub with_message_args : PactClient → List Text → PactClient
with_message_args p args = record p {
  message_svc_manager = new_message_service args p.message_svc_manager;
}

module _ {W : Type 0} (host : Host W) where
  -- What is read of the output is handed on, unless the command is not launched or read.
  module _ {A : Type 0} (failed : Error → A) (read : Text × Text × Option Error → A) where
    unfoldable pub behind_output : W × Result (Text × Text × Option Error) → W × A
    behind_output (w, err e) = (w, failed e)
    behind_output (w, ok texts) = (w, read texts)

    unfoldable pub behind_launch : Cmd → W × Option Error → W × A
    behind_launch cmd (w, some e) = (w, failed e)
    behind_launch cmd (w, none) = behind_output (read_pipes host cmd w)

    unfoldable pub run_message : Cmd → W → W × A
    run_message cmd w = behind_launch cmd (launch host cmd w)

  module _ {Value : Type 0} where
    -- Behind the validation.
    unfoldable pub update_valid :
        PactClient → PactMessageRequest Value × Option Error → W → PactClient × W × Option Error
    update_valid p (request, some e) w = (p, w, some e)
    update_valid p (request, none) w =
        let (w', e) = run_message some update_error (message_cmd host p request.args) w in
        (with_message_args p request.args, w', e)

    unfoldable pub update_message_pact :
        (Value → Result Text)
        → PactClient
        → PactMessageRequest Value
        → W
        → PactClient × W × Option Error
    update_message_pact marshal p request w = update_valid p (validate_message marshal request) w

    -- `decode` is `json.Decoder.Decode` into the response.
    module _ (decode : Text → Option Value × Option Error) where
      -- Behind the end of the process: the error of the process is wrapped only if its output is no
      -- JSON text.
      unfoldable pub reified : Text × Text × Option Error → ReificationResponse Value × Option Error
      reified (std_out, std_err, e) =
          let (value, undecoded) = decode std_out in
          let res : ReificationResponse Value = record {
            response = value;
            response_raw = std_out;
          } in
          elim undecoded [
            | none ↦ (res, e)
            | some d ↦ elim e [
              | none ↦ (res, some (message_error d std_err std_out))
              | some x ↦ (res, some (message_error x std_err std_out))
            ]
          ]

      unfoldable pub reify_valid :
          PactClient
          → PactReificationRequest Value × Option Error
          → W
          → PactClient × W × ReificationResponse Value × Option Error
      reify_valid p (request, some e) w = (p, w, empty_response, some e)
      reify_valid p (request, none) w =
          let (w', (res, e)) =
            run_message (λ e. (empty_response, some e)) reified (message_cmd host p request.args)
              w in
          (with_message_args p request.args, w', res, e)

      unfoldable pub reify_message :
          (Value → Result Text)
          → PactClient
          → PactReificationRequest Value
          → W
          → PactClient × W × ReificationResponse Value × Option Error
      reify_message marshal p request w = reify_valid p (validate_reification marshal request) w
