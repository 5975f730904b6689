-- ===== src/Dsl/Matcher.antt =====
-- dsl/matcher.go: the matchers of the DSL and the values that they carry.
pub mod Tags
pub mod Match
pub mod Json
pub mod Formats
pub mod Builders
use pact_go.Common.{ℤ, Text, Bool, Option, none, some, if◌then◌else◌, text_eq}

-- A `Matcher`, and what stands in an `interface{}` of one: nil, a text, a number, a bool, a matcher, a
-- slice, or a struct or map with the names of its members. `StructMatcher` is a map, as the list of
-- its entries; a `float64` is not looked into.
mutual
  -- `plain` is a `String` or `S`.
  pub data Matcher (Float : Type 0) : Type 0 where
    each_like : Content Float → ℤ → Matcher Float
    like : Content Float → Matcher Float
    term : Text → Text → Matcher Float
    plain : Text → Matcher Float
    struct_matcher : Entries Float → Matcher Float

  pub data Content (Float : Type 0) : Type 0 where
    text : Text → Content Float
    int : ℤ → Content Float
    float : Float → Content Float
    bool : Bool → Content Float
    matcher : Matcher Float → Content Float
    nil : Content Float
    slice : Items Float → Content Float
    members : Members Float → Content Float

  pub data Items (Float : Type 0) : Type 0 where
    no_items : Items Float
    item : Content Float → Items Float → Items Float

  pub data Members (Float : Type 0) : Type 0 where
    no_members : Members Float
    member : Text → Content Float → Members Float → Members Float

  pub data Entries (Float : Type 0) : Type 0 where
    end : Entries Float
    entry : Text → Matcher Float → Entries Float → Entries Float

module _ {Float : Type 0} where
  -- `result[key] = m`
  unfoldable pub set_entry : Text → Matcher Float → Entries Float → Entries Float
  set_entry key m end = entry key m end
  set_entry key m (entry k old es) =
      if text_eq k key then entry k m es else entry k old (set_entry key m es)

  unfoldable pub get_entry : Text → Entries Float → Option (Matcher Float)
  get_entry key end = none
  get_entry key (entry k m es) = if text_eq k key then some m else get_entry key es

  -- `GetValue`, without the detail of the matching; `none` is nil.
  unfoldable pub get_value : Matcher Float → Option (Content Float)
  get_value (each_like contents min) = some contents
  get_value (like contents) = some contents
  get_value (term generate regex) = some (text generate)
  get_value (plain s) = some (text s)
  get_value (struct_matcher es) = none
