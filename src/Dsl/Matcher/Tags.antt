-- ===== src/Dsl/Matcher/Tags.antt =====
-- dsl/matcher.go: the `json` and `pact` tags of struct fields. `fmt.Sscanf` is a parameter: what it
-- stores for each format that the code uses, or its error.
pub mod RoundTrip
use pact_go.Common.{
  ℕ, zero, suc, ◌==◌, ℤ, pos, Text, bytes, is_empty, text_eq, has_prefix, contains_byte, split,
  split_at, trim_space, Error, Result, ok, err, Outcome, returns, panics, ◌>>=◌, Bool, true, false,
  not, ◌&&◌, ◌||◌, Option, none, some, List, [], ◌∷◌, if◌then◌else◌,
}

-- The kinds of `reflect.Type` that the code tells apart. A struct field has its name, its two tags
-- and its type.
pub data IntKind : Type 0 where
  int int8 int16 int32 int64 uint uint8 uint16 uint32 uint64 : IntKind

pub data FloatKind : Type 0 where
  float32 float64 : FloatKind

mutual
  pub data GoType : Type 0 where
    ptr slice array : GoType → GoType
    struct : Fields → GoType
    string bool : GoType
    integer : IntKind → GoType
    floating : FloatKind → GoType
    other : GoType

  pub data Fields : Type 0 where
    end : Fields
    field : (name json_tag pact_tag : Text) → GoType → Fields → Fields

-- `strings.Index(jsonTag, ",")` and the part before it
unfoldable pub before_comma : Text → Text
before_comma [] = []
before_comma (c ∷ s) = if c == b',' then [] else c ∷ before_comma s

unfoldable pub get_json_field_name : Text → Text → Text
unfolding before_comma
get_json_field_name name json_tag =
    if is_empty json_tag
    then name
    else if text_eq json_tag (bytes "-")
    then []
    else before_comma json_tag

-- `(.*)$`: the rest of the text holds no newline.
abbrev pub one_line : Text → Bool
one_line s = not (contains_byte s 10)

-- `regexp.MustCompile("regex=(.*)$")`: somewhere "regex=" is followed by one line and the end.
unfoldable pub full_regex : Text → Bool
unfolding has_prefix contains_byte
full_regex [] = false
full_regex (c ∷ s) = (has_prefix (c ∷ s) (bytes "regex=") && one_line s) || full_regex s

-- `regexp.MustCompile("^example=(.*)")`
unfoldable pub example_regex : Text → Bool
unfolding has_prefix
example_regex s = has_prefix s (bytes "example=")

pub record Params (Float : Type 0) : Type 0 where
  pub slice_min : ℤ
  pub str_example : Text
  pub str_reg_ex : Text
  pub number_integer : ℤ
  pub number_float : Float
  pub boolean_value : Bool
  pub boolean_defined : Bool

-- What `fmt.Sscanf(tag, format, &x)` stores in `x` for each format.
pub record Sscanf (Float : Type 0) : Type 0 where
  pub zero_float : Float
  pub example_bool : Text → Result Bool
  pub example_float : Text → Result Float
  pub example_int : Text → Result ℤ
  pub example_string : Text → Result Text
  pub min_int : Text → Result ℤ

-- An error of `Sscanf` makes the code panic.
unfoldable pub scanned : {A : Type 0} → Result A → Outcome A
scanned (ok a) = returns a
scanned (err e) = panics

module _ {Float : Type 0} (scanf : Sscanf Float) where
  unfoldable pub get_defaults : Params Float
  get_defaults = record {
    slice_min = pos 1;
    str_example = [];
    str_reg_ex = [];
    number_integer = pos 0;
    number_float = scanf.zero_float;
    boolean_value = false;
    boolean_defined = false;
  }

  -- The branch of a tag with a regular expression: its two components.
  unfoldable pub pluck_regex : List Text → Outcome (Params Float)
  pluck_regex [] = panics
  pluck_regex (c₀ ∷ []) = panics
  pluck_regex (c₀ ∷ [] ∷ rest) = panics
  pluck_regex (c₀ ∷ (c ∷ s) ∷ rest) = do
    example ← scanned (scanf.example_string c₀)
    returns (record get_defaults { str_example = example; str_reg_ex = c ∷ s })

  -- The branch of a tag with an example alone.
  unfoldable pub pluck_example : List Text → Outcome (Params Float)
  pluck_example (c₀ ∷ c₁ ∷ []) =
      if is_empty (trim_space c₁)
      then panics
      else returns (record get_defaults { str_example = c₁ })
  pluck_example _ = panics

  unfoldable pub pluck_string : Text → Outcome (Params Float)
  pluck_string tag =
      if full_regex tag
      then pluck_regex (split_at tag (bytes ",regex="))
      else if example_regex tag
      then pluck_example (split_at tag (bytes "example="))
      else returns get_defaults

  unfoldable pub pluck_kind : GoType → Text → Outcome (Params Float)
  pluck_kind bool tag = do
    value ← scanned (scanf.example_bool tag)
    returns (record get_defaults { boolean_value = value; boolean_defined = true })
  pluck_kind (floating k) tag = do
    value ← scanned (scanf.example_float tag)
    returns (record get_defaults { number_float = value })
  pluck_kind (integer k) tag = do
    value ← scanned (scanf.example_int tag)
    returns (record get_defaults { number_integer = value })
  pluck_kind (slice t) tag = do
    value ← scanned (scanf.min_int tag)
    returns (record get_defaults { slice_min = value })
  pluck_kind string tag = pluck_string tag
  pluck_kind _ tag = returns get_defaults

  unfoldable pub pluck_params : GoType → Text → Outcome (Params Float)
  pluck_params t tag = if is_empty tag then returns get_defaults else pluck_kind t tag
