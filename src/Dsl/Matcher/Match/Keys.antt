-- ===== src/Dsl/Matcher/Match/Keys.antt =====
-- The loop over struct fields of `match` of dsl/matcher.go loses no field.
use pact_go.Common.{
  Text, is_empty, text_eq, text_eq_iff, returns, returns_inj, >>=_inv, Bool, false, some, ◌≡◌, inl,
  inr, refl, sym, ◌∙◌, Bool-cases,
}
use pact_go.Dsl.Matcher.{Matcher, struct_matcher, Entries, set_entry, get_entry}
use pact_go.Dsl.Matcher.Tags.{struct, Fields, field, Params, Sscanf, get_json_field_name}
use pact_go.Dsl.Matcher.Match.{match, match_fields}
use pact_go.Dsl.Matcher.Match.Shape.{get_entry-set_entry}
use pact_go.Dsl.Matcher.Match.Sound.{match_fields_inv}

-- Every field whose JSON name is not empty has an entry.
unfoldable pub HasEntries : {Float : Type 0} → Fields → Entries Float → Type 0
HasEntries Fields.end es = Unit
HasEntries {Float} (field name json_tag pact_tag t fs) es =
    (is_empty (get_json_field_name name json_tag) ≡ false
      → (m : Matcher Float) × (get_entry (get_json_field_name name json_tag) es ≡ some m))
    × HasEntries fs es

-- A new entry takes no key away.
set_entry_keeps :
    {Float : Type 0} (key k : Text) (m m' : Matcher Float) (es : Entries Float)
    → get_entry key es ≡ some m
    → (m'' : Matcher Float) × (get_entry key (set_entry k m' es) ≡ some m'')
set_entry_keeps key k m m' es e = elim (Bool-cases (text_eq k key)) [
  | inl same ↦ (m', get_entry-set_entry key k m' es ∙ rw same)
  | inr differs ↦ (m, get_entry-set_entry key k m' es ∙ rw differs e)
]

module _ {Float : Type 0} (is_zero_float : Float → Bool) (default_float : Float)
    (scanf : Sscanf Float) where
  -- The loop over fields keeps every key that the map has.
  match_fields_keeps :
      (fs : Fields) (result es : Entries Float) (key : Text) (m : Matcher Float)
      → match_fields is_zero_float default_float scanf fs result ≡ returns es
      → get_entry key result ≡ some m
      → (m' : Matcher Float) × (get_entry key es ≡ some m')
  unfolding match_fields
  match_fields_keeps Fields.end result es key m e old = (m, rw (← (returns_inj e)) old)
  match_fields_keeps (field name json_tag pact_tag t fs) result es key m e old =
      elim (match_fields_inv is_zero_float default_float scanf name json_tag pact_tag t fs result es
        e) [
          | inl (_, e') ↦ match_fields_keeps fs result es key m e' old
          | inr (params, m', _, _, e') ↦
              let (m'', kept) =
                set_entry_keeps key (get_json_field_name name json_tag) m m' result old in
              match_fields_keeps fs (set_entry (get_json_field_name name json_tag) m' result) es key
                m'' e' kept
        ]

  match_fields-HasEntries :
      (fs : Fields) (result es : Entries Float)
      → match_fields is_zero_float default_float scanf fs result ≡ returns es
      → HasEntries fs es
  unfolding HasEntries
  match_fields-HasEntries Fields.end result es e = tt
  match_fields-HasEntries (field name json_tag pact_tag t fs) result es e =
      elim (match_fields_inv is_zero_float default_float scanf name json_tag pact_tag t fs result es
        e) [
          | inl (empty, e') ↦ (λ named. absurd (cc), match_fields-HasEntries fs result es e')
          | inr (params, m', _, _, e') ↦
              let next = set_entry (get_json_field_name name json_tag) m' result in
              (
                λ named.
                    match_fields_keeps fs next es (get_json_field_name name json_tag) m' e'
                      (get_entry-set_entry _ _ m' result ∙ rw ((text_eq_iff _ _).1 refl)),
                match_fields-HasEntries fs next es e',
              )
        ]

  -- `Match` of a struct gives a map with an entry for each field whose JSON name is not empty.
  pub match-HasEntries :
      (fs : Fields) (params : Params Float) (m : Matcher Float)
      → match is_zero_float default_float scanf (struct fs) params ≡ returns m
      → (es : Entries Float) × (m ≡ struct_matcher es) × HasEntries fs es
  unfolding match
  match-HasEntries fs params m e =
      let (es, e₁, e₂) =
        >>=_inv (match_fields is_zero_float default_float scanf fs Entries.end) _ e in
      (es, sym (returns_inj e₂), match_fields-HasEntries fs Entries.end es e₁)
