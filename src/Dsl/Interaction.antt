-- ===== src/Dsl/Interaction.antt =====
-- dsl/interaction.go, dsl/request.go and dsl/response.go: the interactions of a consumer test and
-- their builder.
use pact_go.Common.{ℤ, Text, Result, ok, err, Bool, false, Option}
use pact_go.Dsl.Matcher.{Matcher, Entries}

-- A body, which may be any value: `string_body` is a `string`, and `other_body` is none.
pub data Body (Value : Type 0) : Type 0 where
  no_body : Body Value
  string_body : Text → Body Value
  other_body : Value → Body Value

pub record Request (Value Float : Type 0) : Type 0 where
  pub method : Text
  pub path : Option (Matcher Float)
  pub query : Entries Float
  pub headers : Entries Float
  pub body : Body Value

pub record Response (Value Float : Type 0) : Type 0 where
  pub status : ℤ
  pub headers : Entries Float
  pub body : Body Value

pub record Interaction (Value Float : Type 0) : Type 0 where
  pub request : Request Value Float
  pub response : Response Value Float
  pub description : Text
  pub state : Text

-- `is_object` decodes a JSON text, and says whether it is an object.
unfoldable pub is_json_formatted_object :
    {Value : Type 0} → (Text → Result Bool) → Body Value → Bool
is_json_formatted_object is_object (string_body content) = elim (is_object content) [
  | err e ↦ false
  | ok b ↦ b
]
is_json_formatted_object is_object _ = false

module _ {Value Float : Type 0} where
  unfoldable pub given : Text → Interaction Value Float → Interaction Value Float
  given state i = record i { state = state }

  unfoldable pub upon_receiving : Text → Interaction Value Float → Interaction Value Float
  upon_receiving description i = record i { description = description }

  unfoldable pub will_respond_with :
      Response Value Float → Interaction Value Float → Interaction Value Float
  will_respond_with response i = record i { response = response }

  -- The interaction, and whether the code warns of its body.
  unfoldable pub with_request :
      (Text → Result Bool)
      → Request Value Float
      → Interaction Value Float
      → Interaction Value Float × Bool
  with_request is_object request i =
      (record i { request = request }, is_json_formatted_object is_object request.body)
