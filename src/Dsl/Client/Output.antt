-- ===== src/Dsl/Client/Output.antt =====
-- dsl/client.go `sanitiseRubyResponse`, which nothing calls.
use pact_go.Common.{Text, bytes, []}

-- `replace_all pattern source replacement` is `regexp.MustCompile(pattern).ReplaceAllString`.
module _ (replace_all : Text → Text → Text → Text) where
  -- Comments, the lines that tell how to run a test again, and empty lines are taken out.
  unfoldable pub sanitise_ruby_response : Text → Text
  sanitise_ruby_response response =
      let uncommented = replace_all (bytes "(?m)^\\s*#.*$") response [] in
      let s = replace_all (bytes "(?m).*bundle exec rake pact:verify.*$") uncommented [] in
      replace_all (bytes "\\n+") s (bytes "\n")
