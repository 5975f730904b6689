-- ===== src/Dsl/Matcher/Match.antt =====
-- dsl/matcher.go `match`: the matcher of a Go type. A type is a finite tree here; the code does not
-- return on a type that holds itself.
pub mod Shape
pub mod Sound
pub mod Complete
pub mod Keys
pub mod Printed
use pact_go.Common.{
  ℕ, ◌==◌, ℤ, pos, negsuc, Text, bytes, is_empty, Outcome, returns, panics, ◌>>=◌, Bool, true,
  false, not, if◌then◌else◌,
}
use pact_go.Dsl.Matcher.{
  Matcher, each_like, like, term, plain, struct_matcher, Content, text, int, float, matcher,
  Entries, entry, set_entry,
}
use pact_go.Dsl.Matcher
use pact_go.Dsl.Matcher.Tags.{
  GoType, ptr, slice, array, struct, integer, floating, other, Fields, field, Params, Sscanf,
  get_defaults, get_json_field_name, pluck_params,
}
use pact_go.Dsl.Matcher.Tags

abbrev pub is_zero : ℤ → Bool
is_zero (pos n) = n == 0
is_zero (negsuc n) = false

-- `is_zero_float` is the test `params.number.float != 0`, turned round; `default_float` is 1.1.
module _ {Float : Type 0} (is_zero_float : Float → Bool) (default_float : Float)
    (scanf : Sscanf Float) where
  unfoldable pub match_string : Params Float → Matcher Float
  match_string params =
      if not (is_empty params.str_reg_ex)
      then term params.str_example params.str_reg_ex
      else if not (is_empty params.str_example)
      then like (text params.str_example)
      else like (text (bytes "string"))

  unfoldable pub match_bool : Params Float → Matcher Float
  match_bool params =
      if params.boolean_defined
      then like (Content.bool params.boolean_value)
      else like (Content.bool true)

  unfoldable pub match_integer : Params Float → Matcher Float
  match_integer params =
      if not (is_zero params.number_integer)
      then like (int params.number_integer)
      else like (int (pos 1))

  unfoldable pub match_float : Params Float → Matcher Float
  match_float params =
      if not (is_zero_float params.number_float)
      then like (float params.number_float)
      else like (float default_float)

  unfoldable mutual
    pub match : GoType → Params Float → Outcome (Matcher Float)
    match (ptr t) params = match t params
    match (slice t) params = do
      m ← match t (get_defaults scanf)
      returns (each_like (matcher m) params.slice_min)
    match (array t) params = do
      m ← match t (get_defaults scanf)
      returns (each_like (matcher m) params.slice_min)
    match (struct fs) params = do es ← match_fields fs Entries.end; returns (struct_matcher es)
    match GoType.string params = returns (match_string params)
    match GoType.bool params = returns (match_bool params)
    match (integer k) params = returns (match_integer params)
    match (floating k) params = returns (match_float params)
    match other params = panics

    -- The loop over the fields; `result` is the map so far.
    pub match_fields : Fields → Entries Float → Outcome (Entries Float)
    match_fields Fields.end result = returns result
    match_fields (field name json_tag pact_tag t fs) result =
        if is_empty (get_json_field_name name json_tag) then match_fields fs result else (do
          params ← pluck_params scanf t pact_tag
          m ← match t params
          match_fields fs (set_entry (get_json_field_name name json_tag) m result))
