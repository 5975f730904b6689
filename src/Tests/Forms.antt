-- ===== src/Tests/Forms.antt =====
-- The JSON form of a matcher, and what is built with it.
use pact_go.Common.{ℤ, pos, Text, bytes, true, none, [], ◌≡◌, refl, ok}
use pact_go.Dsl.Matcher.{Matcher, each_like, matcher, struct_matcher, end, entry}
use pact_go.Dsl.Matcher.Formats.{identifier, uuid}
use pact_go.Dsl.Interaction.{
  no_body, string_body, Request, Interaction, given, upon_receiving, is_json_formatted_object,
  with_request,
}

abbrev user : Matcher Text
user =
    struct_matcher
      (entry (bytes "id") identifier (entry (bytes "keys") (each_like (matcher uuid) (pos 2)) end))

abbrev bare : Interaction ℤ Text
bare = record {
  request = record { method = []; path = none; query = end; headers = end; body = no_body };
  response = record { status = pos 0; headers = end; body = no_body };
  description = [];
  state = [];
}

abbrev posting : Request ℤ Text
posting = record {
  method = bytes "POST";
  path = none;
  query = end;
  headers = end;
  body = string_body (bytes "{}");
}

warned :
    with_request
      (λ content. ok true)
      posting
      (upon_receiving (bytes "a post") (given (bytes "a user") bare))
    ≡ (
      record bare { request = posting; description = bytes "a post"; state = bytes "a user" },
      true,
    )
unfolding with_request upon_receiving given is_json_formatted_object
warned = refl
