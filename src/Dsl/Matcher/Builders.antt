-- ===== src/Dsl/Matcher/Builders.antt =====
-- dsl/matcher.go: the functions that make a matcher, and `Match`.
use pact_go.Common.{ℤ, Text, Bool, Outcome}
use pact_go.Dsl.Matcher.{Matcher, Content}
use pact_go.Dsl.Matcher.Tags.{GoType, Sscanf, get_defaults}
use pact_go.Dsl.Matcher.Match.{match}

module _ {Float : Type 0} where
  unfoldable pub each_like : Content Float → ℤ → Matcher Float
  each_like content min_required = Matcher.each_like content min_required

  unfoldable pub like : Content Float → Matcher Float
  like content = Matcher.like content

  -- `Term`, which is `Regex` too.
  unfoldable pub term : Text → Text → Matcher Float
  term generate regex = Matcher.term generate regex

  -- `Match`, of a value of this type.
  unfoldable pub match_value :
      (Float → Bool) → Float → Sscanf Float → GoType → Outcome (Matcher Float)
  unfolding match
  match_value is_zero_float default_float scanf src =
      match is_zero_float default_float scanf src (get_defaults scanf)
