-- ===== src/Dsl/MockService.antt =====
-- dsl/mock_service.go: the HTTP interface of the mock service.
pub mod Status
use pact_go.Common.{
  ℕ, ltb, leb, Text, bytes, is_empty, text_eq, Error, Result, ok, err, Bool, true, false, not, ◌&&◌,
  ◌||◌, Option, none, some, ◌++◌, if◌then◌else◌,
}

-- What a call sends: nothing, an interaction, or the names of a pact with the write mode.
pub data Body (Interaction : Type 0) : Type 0 where
  null : Body Interaction
  interaction : Interaction → Body Interaction
  pact : (consumer provider pact_file_write_mode : Text) → Body Interaction

-- A response of the mock service: its status, its text, and an error in reading the text.
pub record Reply : Type 0 where
  pub status_code : ℕ
  pub response_body : Text
  pub read_error : Option Error

-- What the code calls of `encoding/json` and `net/http`. The second argument of `send` is the
-- request body, which only a POST has.
pub record Http (W Interaction : Type 0) : Type 0 where
  pub marshal : Body Interaction → Result Text
  pub new_request : Text → Text → Option Error
  pub send : Text → Text → Option Text → W → W × Result Reply

pub record MockService : Type 0 where
  pub base_url : Text
  pub consumer : Text
  pub provider : Text
  pub pact_file_write_mode : Text

-- The test on the status, behind a call that was answered.
unfoldable pub reply_error : Reply → Option Error
reply_error res =
    if ltb res.status_code 200 || leb 300 res.status_code
    then some res.response_body
    else res.read_error

unfoldable pub sent : {W : Type 0} → W × Result Reply → W × Option Error
sent (w, err e) = (w, some e)
sent (w, ok res) = (w, reply_error res)

module _ {W Interaction : Type 0} (http : Http W Interaction) where
  unfoldable pub call : Text → Text → Body Interaction → W → W × Option Error
  unfolding sent
  call method url content w = elim (http.marshal content) [
    | err e ↦ (w, some e)
    | ok body ↦ elim (http.new_request method url) [
      | some e ↦ (w, some e)
      | none ↦
          sent (http.send method url (if text_eq method (bytes "POST") then some body else none) w)
    ]
  ]

  unfoldable pub delete_interactions : MockService → W → W × Option Error
  delete_interactions m = call (bytes "DELETE") (m.base_url ++ bytes "/interactions") null

  unfoldable pub add_interaction : MockService → Interaction → W → W × Option Error
  add_interaction m i = call (bytes "POST") (m.base_url ++ bytes "/interactions") (interaction i)

  unfoldable pub verify : MockService → W → W × Option Error
  verify m = call (bytes "GET") (m.base_url ++ bytes "/interactions/verification") null

  -- `WritePact`, with the mode that it writes into the service.
  unfoldable pub write_pact : MockService → W → W × Option Error
  write_pact m w =
      if is_empty m.consumer || is_empty m.provider
      then (w, some (bytes "Consumer and Provider name need to be provided"))
      else call (bytes "POST") (m.base_url ++ bytes "/pact")
          (pact m.consumer m.provider
            (if is_empty m.pact_file_write_mode then bytes "overwrite" else m.pact_file_write_mode))
          w
