-- ===== src/Dsl/Matcher/Tags/RoundTrip.antt =====
-- The documented form of a `pact` tag with a regular expression, `example=E,regex=R`, is read back
-- by `pluckParams` of dsl/matcher.go.
use pact_go.Common.{
  ℕ, Text, bytes, is_empty, has_prefix, contains_byte, split_at, cut_from, returns, ◌>>=◌, true,
  false, [], ◌∷◌, ◌++◌, append_assoc, append-nil, ◌≡◌, ◌≢◌, refl, sym, ap, ◌∙◌, arith,
}
use pact_go.Common.Lists.{All, All-append}
use pact_go.Dsl.Matcher.Tags.{
  Sscanf, scanned, get_defaults, one_line, full_regex, GoType, pluck_string, pluck_regex,
  pluck_kind, pluck_params,
}

abbrev pub Lacks : ℕ → Text → Type 0
Lacks b = All (λ c. c ≢ b)

abbrev comma_regex : Text
comma_regex = b',' ∷ b'r' ∷ b'e' ∷ b'g' ∷ b'e' ∷ b'x' ∷ b'=' ∷ []

comma_regex_lem : bytes ",regex=" ≡ comma_regex
unfolding bytes
comma_regex_lem = refl

-- What stands before the first comma is one part.
cut_from-append :
    (p rest cur : Text)
    → Lacks b',' p
    → cut_from comma_regex 0 cur (p ++ rest) ≡ cut_from comma_regex 0 (cur ++ p) rest
unfolding cut_from has_prefix
cut_from-append [] rest cur h = rw append-nil
cut_from-append (c ∷ p) rest cur (h, hs) =
    ground (arith, cut_from-append p rest (cur ++ c ∷ []) hs, append_assoc cur (c ∷ []) p)

split_at-regex :
    (p r : Text)
    → Lacks b',' p
    → Lacks b',' r
    → split_at (p ++ (comma_regex ++ r)) comma_regex ≡ p ∷ r ∷ []
unfolding split_at cut_from has_prefix
split_at-regex p r hp hr =
    cut_from-append p (comma_regex ++ r) [] hp
    ∙ ap (λ ps. p ∷ ps)
        (ap (cut_from comma_regex 0 []) (sym (append-nil r)) ∙ cut_from-append r [] [] hr)

full_regex-append : (p t : Text) → full_regex t ≡ true → full_regex (p ++ t) ≡ true
unfolding full_regex
full_regex-append [] t h = h
full_regex-append (c ∷ p) t h = ground (arith, full_regex-append p t h)

full_regex-regex : (r : Text) → one_line r ≡ true → full_regex (comma_regex ++ r) ≡ true
unfolding full_regex has_prefix contains_byte bytes
full_regex-regex r h = ground arith

example_Lacks : (e : Text) → Lacks b',' e → Lacks b',' (bytes "example=" ++ e)
unfolding bytes
example_Lacks e h = All-append (λ c. c ≢ b',') (bytes "example=") e (omega arith) h

abbrev pub regex_tag : Text → Text → Text
regex_tag example regex = bytes "example=" ++ (example ++ (bytes ",regex=" ++ regex))

not_empty : (e r : Text) → is_empty (regex_tag e r) ≡ false
unfolding bytes
not_empty e r = refl

split_at_tag :
    (e r : Text)
    → Lacks b',' e
    → Lacks b',' r
    → split_at ((bytes "example=" ++ e) ++ (comma_regex ++ r)) (bytes ",regex=")
      ≡ (bytes "example=" ++ e) ∷ r ∷ []
split_at_tag e r he hr =
    ap (split_at _) comma_regex_lem
    ∙ split_at-regex (bytes "example=" ++ e) r (example_Lacks e he) hr

regex_tag_parts : (e r : Text) → regex_tag e r ≡ (bytes "example=" ++ e) ++ (comma_regex ++ r)
unfolding bytes
regex_tag_parts e r = refl

module _ {Float : Type 0} (scanf : Sscanf Float) where
  pluck_regex-cons :
      (c r : Text)
      → r ≢ []
      → pluck_regex scanf (c ∷ r ∷ []) ≡ (
          scanned (scanf.example_string c) >>= λ x.
          returns (record (get_defaults scanf) { str_example = x; str_reg_ex = r }))
  unfolding pluck_regex
  pluck_regex-cons c [] h = absurd (h refl)
  pluck_regex-cons c (d ∷ r) h = refl

  -- A tag `example=E,regex=R` of a string field gives the regular expression R and the example that
  -- is scanned from `example=E`, if neither part holds a comma and R is one line and not empty.
  pub pluck_params-regex_tag :
      (example regex : Text)
      → Lacks b',' example
      → Lacks b',' regex
      → one_line regex ≡ true
      → regex ≢ []
      → pluck_params scanf GoType.string (regex_tag example regex) ≡ (
          scanned (scanf.example_string (bytes "example=" ++ example)) >>= λ x.
          returns (record (get_defaults scanf) { str_example = x; str_reg_ex = regex }))
  unfolding pluck_params pluck_kind pluck_string
  pluck_params-regex_tag e r he hr line ne =
      rw
        (
          not_empty e r,
          regex_tag_parts e r,
          full_regex-append (bytes "example=" ++ e) _ (full_regex-regex r line),
          cut,
        )
        (pluck_regex-cons _ r ne)
    where
      cut :
          split_at ((bytes "example=" ++ e) ++ (comma_regex ++ r)) (bytes ",regex=")
          ≡ (bytes "example=" ++ e) ∷ r ∷ []
      cut = split_at_tag e r he hr
