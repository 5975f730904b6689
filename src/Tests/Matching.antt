-- ===== src/Tests/Matching.antt =====
-- The matcher of a concrete struct type, with a scanner that takes every tag.
use pact_go.Common.{
  inl, inr, some, ℕ, pos, Text, bytes, ok, returns, ◌>>=◌, Bool, true, false, [], ◌∷◌, ◌++◌, ◌≡◌,
  ◌↔◌, refl, arith, text_eq, contains_byte,
}
use pact_go.Dsl.Matcher.{
  Matcher, each_like, like, struct_matcher, Content, text, int, Entries, entry, set_entry,
}
use pact_go.Dsl.Matcher.Tags.{
  IntKind, GoType, ptr, slice, struct, integer, Fields, field, Sscanf, scanned, get_defaults,
  pluck_params, pluck_kind, get_json_field_name, before_comma, one_line,
}
use pact_go.Dsl.Matcher.Tags.RoundTrip.{Lacks, regex_tag, pluck_params-regex_tag}
use pact_go.Dsl.Matcher.Match.{match, match_string, match_integer}
use pact_go.Dsl.Matcher.Match.Shape.{HasShape}
use pact_go.Dsl.Matcher.Match.Sound.{match-HasShape}
use pact_go.Dsl.Matcher.Match.Printed.{HasNoClass, match-IsRead}
use pact_go.Dsl.Matcher.Json.{matcher_json}
use pact_go.Dsl.Matcher.Json.RoundTrip.{read_matcher}
use pact_go.Dsl.Matcher.Match.Complete.{IsSupported, match_returns_iff}
use pact_go.Dsl.Matcher.Match.Keys.{HasEntries, match-HasEntries}

-- The tests give every float as 0, and read every text as the same value.
abbrev scanner : Sscanf ℕ
scanner = record {
  zero_float = 0;
  example_bool = λ tag. ok true;
  example_float = λ tag. ok 3;
  example_int = λ tag. ok (pos 42);
  example_string = λ tag. ok tag;
  min_int = λ tag. ok (pos 2);
}

abbrev no_float : ℕ → Bool
no_float n = false

abbrev user_fields : Fields
user_fields = field (bytes "Name") [] [] (ptr GoType.string) (
    field (bytes "Age") (bytes "age,omitempty") (bytes "example=42") (integer IntKind.int) (
      field (bytes "Secret") (bytes "-") [] GoType.other
        (field (bytes "Tags") (bytes "tags") (bytes "min=2") (slice GoType.string) Fields.end)))

abbrev user_entries : Entries ℕ
user_entries = entry (bytes "Name") (like (text (bytes "string"))) (
    entry (bytes "age") (like (int (pos 42))) (
      entry (bytes "tags") (each_like (Content.matcher (like (text (bytes "string")))) (pos 2))
        Entries.end))

user_match :
    match no_float 1 scanner (struct user_fields) (get_defaults scanner)
    ≡ returns (struct_matcher user_entries)
unfolding match match_string match_integer pluck_params pluck_kind get_defaults get_json_field_name
    before_comma set_entry bytes scanned text_eq
user_match = refl

match-HasShape_example : HasShape (struct user_fields) (struct_matcher user_entries)
match-HasShape_example =
    match-HasShape no_float 1 scanner (struct user_fields) (get_defaults scanner)
      (struct_matcher user_entries) user_match

match_returns_iff_example :
    ((m : Matcher ℕ) × (match no_float 1 scanner (struct user_fields) (get_defaults scanner)
        ≡ returns m))
    ↔ IsSupported scanner (struct user_fields)
match_returns_iff_example =
    match_returns_iff no_float 1 scanner (struct user_fields) (get_defaults scanner)

match-HasEntries_example :
    (es : Entries ℕ) × (struct_matcher user_entries ≡ struct_matcher es) × HasEntries user_fields es
match-HasEntries_example =
    match-HasEntries no_float 1 scanner user_fields (get_defaults scanner)
      (struct_matcher user_entries) user_match

user-HasNoClass : HasNoClass (struct user_fields)
unfolding HasNoClass get_json_field_name before_comma text_eq bytes
user-HasNoClass = (inr (refl, tt), (inr (refl, tt), (inl refl, (inr (refl, tt), tt))))

match-IsRead_example :
    (read_matcher (matcher_json (struct_matcher user_entries)) ≡ some (struct_matcher user_entries))
    × HasShape (struct user_fields) (struct_matcher user_entries)
match-IsRead_example =
    match-IsRead no_float 1 scanner (struct user_fields) (get_defaults scanner)
      (struct_matcher user_entries) user-HasNoClass user_match

abbrev example_text : Text
example_text = b'a' ∷ b'b' ∷ []

abbrev regex_text : Text
regex_text = b'a' ∷ b'.' ∷ []

example_plain : Lacks b',' example_text
example_plain = (λ e. absurd (omega (arith, e)), (λ e. absurd (omega (arith, e)), tt))

regex_plain : Lacks b',' regex_text
regex_plain = (λ e. absurd (omega (arith, e)), (λ e. absurd (omega (arith, e)), tt))

regex_one_line : one_line regex_text ≡ true
unfolding contains_byte
regex_one_line = refl

pluck_params-regex_tag_example :
    pluck_params scanner GoType.string (regex_tag example_text regex_text) ≡ (
      scanned (scanner.example_string (bytes "example=" ++ example_text)) >>= λ x.
      returns (record (get_defaults scanner) { str_example = x; str_reg_ex = regex_text }))
pluck_params-regex_tag_example =
    pluck_params-regex_tag scanner example_text regex_text example_plain regex_plain regex_one_line
      (cc)
