-- ===== src/Dsl/Messages/Builder.antt =====
-- dsl/message.go: the builder of a message.
use pact_go.Common.{Text, Option, [], ◌∷◌}
use pact_go.Dsl.Matcher.{Entries}
use pact_go.Dsl.Messages.{Message}

module _ {Value Float : Type 0} where
  -- A state with no parameters, in place of all that were given before.
  unfoldable pub given_state : Text → Message Value Float → Message Value Float
  given_state state m = record m { states = record { name = state; params = [] } ∷ [] }

  unfoldable pub expects_to_receive : Text → Message Value Float → Message Value Float
  expects_to_receive description m = record m { description = description }

  unfoldable pub with_metadata : Entries Float → Message Value Float → Message Value Float
  with_metadata metadata m = record m { metadata = metadata }

  unfoldable pub with_content : Option Value → Message Value Float → Message Value Float
  with_content content m = record m { content = content }

  unfoldable pub as_type : Option Value → Message Value Float → Message Value Float
  as_type value m = record m { message_type = value }
