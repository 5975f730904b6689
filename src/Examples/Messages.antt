-- ===== src/Examples/Messages.antt =====
-- examples/messages/types/types.go: the structs of the message examples, with their tags, as `Match`
-- sees them.
use pact_go.Common.{bytes, []}
use pact_go.Dsl.Matcher.Tags.{IntKind, GoType, slice, struct, integer, Fields, field}

abbrev pub access_level : GoType
access_level = struct (field (bytes "Role") (bytes "role,omitempty") [] GoType.string Fields.end)

abbrev pub user : GoType
user = struct (
    field (bytes "ID") (bytes "id,omitempty") [] (integer IntKind.int) (
      field (bytes "Name") (bytes "name,omitempty") [] GoType.string
        (field (bytes "Access") (bytes "access,omitempty") [] (slice access_level) Fields.end)))

abbrev pub not_found : GoType
not_found = struct (
    field (bytes "Message") (bytes "message") (bytes "example=user not found") GoType.string
      Fields.end)

abbrev pub order : GoType
order = struct (
    field (bytes "ID") (bytes "id") (bytes "example=42") (integer IntKind.int) (
      field (bytes "Item") (bytes "item") (bytes "example=apple,regex=(apple|orange)") GoType.string
        Fields.end))
