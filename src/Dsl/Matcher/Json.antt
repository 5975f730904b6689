-- ===== src/Dsl/Matcher/Json.antt =====
-- dsl/matcher.go: the JSON forms of matchers. What encoding/json makes of a
-- value is a tree; the order of the fields of an object is that of the code.
pub mod RoundTrip
use pact_go.Common.{
  ℤ, pos, Text, bytes, Error, Result, ok, err, Bool, Option, none, some, List, [], ◌∷◌, ◌⊎◌, inl,
  inr,
}
use pact_go.Dsl.Matcher.{
  Matcher, each_like, like, term, plain, struct_matcher, Content, text, int, float, bool, matcher,
  nil, slice, members, Items, no_items, item, Members, no_members, member, Entries, end, entry,
}

mutual
  pub data Json (Float : Type 0) : Type 0 where
    null : Json Float
    string : Text → Json Float
    number : ℤ → Json Float
    fraction : Float → Json Float
    truth : Bool → Json Float
    object : Fields Float → Json Float
    array : Elements Float → Json Float

  pub data Fields (Float : Type 0) : Type 0 where
    no_more : Fields Float
    field : Text → Json Float → Fields Float → Fields Float

  pub data Elements (Float : Type 0) : Type 0 where
    no_elements : Elements Float
    element : Json Float → Elements Float → Elements Float

abbrev pub json_class : Text
json_class = bytes "json_class"

abbrev pub array_like : Text
array_like = bytes "Pact::ArrayLike"

abbrev pub something_like : Text
something_like = bytes "Pact::SomethingLike"

abbrev pub pact_term : Text
pact_term = bytes "Pact::Term"

module _ {Float : Type 0} where
  -- An object with its class before its other fields.
  abbrev pub classed : Text → Fields Float → Json Float
  classed name fields = object (field json_class (string name) fields)

  abbrev pub term_matcher : Text → Json Float
  term_matcher regex =
      classed (bytes "Regexp")
        (field (bytes "o") (number (pos 0)) (field (bytes "s") (string regex) no_more))

  -- `MarshalJSON`; a `StructMatcher` is a map.
  unfoldable mutual
    pub matcher_json : Matcher Float → Json Float
    matcher_json (each_like contents min) = classed array_like (
        field (bytes "contents") (content_json contents) (field (bytes "min") (number min) no_more))
    matcher_json (like contents) =
        classed something_like (field (bytes "contents") (content_json contents) no_more)
    matcher_json (term generate regex) = classed pact_term (
        field (bytes "data")
          (object (
            field (bytes "generate") (string generate)
              (field (bytes "matcher") (term_matcher regex) no_more)))
          no_more)
    matcher_json (plain s) = string s
    matcher_json (struct_matcher es) = object (entries_json es)

    pub content_json : Content Float → Json Float
    content_json (text s) = string s
    content_json (int n) = number n
    content_json (float f) = fraction f
    content_json (bool b) = truth b
    content_json (matcher m) = matcher_json m
    content_json nil = null
    content_json (slice is) = array (items_json is)
    content_json (members ms) = object (members_json ms)

    pub items_json : Items Float → Elements Float
    items_json no_items = no_elements
    items_json (item c is) = element (content_json c) (items_json is)

    pub members_json : Members Float → Fields Float
    members_json no_members = no_more
    members_json (member k c ms) = field k (content_json c) (members_json ms)

    pub entries_json : Entries Float → Fields Float
    entries_json end = no_more
    entries_json (entry k m es) = field k (matcher_json m) (entries_json es)

  -- `MapMatcher.UnmarshalJSON`, behind the decoding into a map of strings.
  unfoldable pub map_of_strings : List (Text × Text) → Entries Float
  map_of_strings [] = end
  map_of_strings ((k, v) ∷ ss) = entry k (plain v) (map_of_strings ss)

  -- `decode` is `json.Unmarshal` into a map of strings. A text that it does not decode leaves the map
  -- as it was.
  unfoldable pub unmarshal_map :
      (Text → Result (List (Text × Text))) → Text → Entries Float → Entries Float × Option Error
  unmarshal_map decode input old = elim (decode input) [
    | err e ↦ (old, some e)
    | ok strings ↦ (map_of_strings strings, none)
  ]

-- `objectToString`, of a string or any other value.
unfoldable pub object_to_string : {A : Type 0} → (A → Result Text) → Text ⊎ A → Text
object_to_string marshal (inl content) = content
object_to_string marshal (inr obj) = elim (marshal obj) [ err e ↦ [] | ok s ↦ s ]
