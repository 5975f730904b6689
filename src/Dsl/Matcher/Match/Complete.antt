-- ===== src/Dsl/Matcher/Match/Complete.antt =====
-- When `match` of dsl/matcher.go returns, and that no field is lost.
use pact_go.Common.{is_empty, returns, >>=_inv, Bool, false, ◌≡◌, ◌↔◌, inl, inr, refl, Bool-cases}
use pact_go.Dsl.Matcher.{Matcher, each_like, struct_matcher, matcher, Entries, set_entry}
use pact_go.Dsl.Matcher.Tags.{
  GoType, ptr, slice, array, struct, integer, floating, other, Fields, field, Params, Sscanf,
  get_defaults, get_json_field_name, pluck_params,
}
use pact_go.Dsl.Matcher.Match.{
  match, match_fields, match_string, match_bool, match_integer, match_float,
}
use pact_go.Dsl.Matcher.Match.Sound.{match_fields_inv}

-- The type has only kinds that the code handles, and every `pact` tag that is read can be parsed.
-- Nothing is asked of a field whose JSON name is empty.
module _ {Float : Type 0} (scanf : Sscanf Float) where
  unfoldable mutual
    pub IsSupported : GoType → Type 0
    IsSupported (ptr t) = IsSupported t
    IsSupported (slice t) = IsSupported t
    IsSupported (array t) = IsSupported t
    IsSupported (struct fs) = AreSupported fs
    IsSupported other = ⊥
    IsSupported _ = Unit

    pub AreSupported : Fields → Type 0
    AreSupported Fields.end = Unit
    AreSupported (field name json_tag pact_tag t fs) =
        (is_empty (get_json_field_name name json_tag) ≡ false
          → ((params : Params Float) × (pluck_params scanf t pact_tag ≡ returns params))
            × IsSupported t)
        × AreSupported fs

module _ {Float : Type 0} (is_zero_float : Float → Bool) (default_float : Float)
    (scanf : Sscanf Float) where
  mutual
    unfolding match IsSupported

    supported_match :
        (t : GoType) (params : Params Float)
        → IsSupported scanf t
        → (m : Matcher Float) × (match is_zero_float default_float scanf t params ≡ returns m)
    supported_match (ptr t) params h = supported_match t params h
    supported_match (slice t) params h =
        let (m, e) = supported_match t (get_defaults scanf) h in
        (each_like (matcher m) params.slice_min, rw e)
    supported_match (array t) params h =
        let (m, e) = supported_match t (get_defaults scanf) h in
        (each_like (matcher m) params.slice_min, rw e)
    supported_match (struct fs) params h =
        let (es, e) = supported_fields fs Entries.end h in (struct_matcher es, rw e)
    supported_match other params h = absurd h
    supported_match GoType.string params h =
        (match_string is_zero_float default_float scanf params, refl)
    supported_match GoType.bool params h =
        (match_bool is_zero_float default_float scanf params, refl)
    supported_match (integer k) params h =
        (match_integer is_zero_float default_float scanf params, refl)
    supported_match (floating k) params h =
        (match_float is_zero_float default_float scanf params, refl)

    supported_fields :
        (fs : Fields) (result : Entries Float)
        → AreSupported scanf fs
        → (es : Entries Float) × (match_fields is_zero_float default_float scanf fs result
            ≡ returns es)
    supported_fields Fields.end result h = (result, refl)
    supported_fields (field name json_tag pact_tag t fs) result h =
        elim (Bool-cases (is_empty (get_json_field_name name json_tag))) [
          | inl empty ↦ let (es, e) = supported_fields fs result h.1 in (es, rw empty e)
          | inr named ↦
              let ((params, plucked), fine) = h.0 named in
              let (m, matched) = supported_match t params fine in
              let (es, e) =
                supported_fields fs (set_entry (get_json_field_name name json_tag) m result) h.1 in
              (es, rw (named, plucked, matched) e)
        ]

  mutual
    unfolding match IsSupported

    match_supported :
        (t : GoType) (params : Params Float) (m : Matcher Float)
        → match is_zero_float default_float scanf t params ≡ returns m
        → IsSupported scanf t
    match_supported (ptr t) params m e = match_supported t params m e
    match_supported (slice t) params m e =
        let (m', e₁, _) =
          >>=_inv (match is_zero_float default_float scanf t (get_defaults scanf)) _ e in
        match_supported t (get_defaults scanf) m' e₁
    match_supported (array t) params m e =
        let (m', e₁, _) =
          >>=_inv (match is_zero_float default_float scanf t (get_defaults scanf)) _ e in
        match_supported t (get_defaults scanf) m' e₁
    match_supported (struct fs) params m e =
        let (es, e₁, _) =
          >>=_inv (match_fields is_zero_float default_float scanf fs Entries.end) _ e in
        fields_supported fs Entries.end es e₁
    match_supported other params m e = absurd (cc)
    match_supported _ params m e = tt

    fields_supported :
        (fs : Fields) (result es : Entries Float)
        → match_fields is_zero_float default_float scanf fs result ≡ returns es
        → AreSupported scanf fs
    fields_supported Fields.end result es e = tt
    fields_supported (field name json_tag pact_tag t fs) result es e =
        elim (match_fields_inv is_zero_float default_float scanf name json_tag pact_tag t fs result
          es e) [
            | inl (empty, e') ↦ (λ named. absurd (cc), fields_supported fs result es e')
            | inr (params, m, plucked, matched, e') ↦ (
              λ named. ((params, plucked), match_supported t params m matched),
              fields_supported fs (set_entry (get_json_field_name name json_tag) m result) es e',
            )
          ]

  -- `match` returns a matcher exactly on a type whose kinds it handles and whose tags can be parsed,
  -- the fields whose JSON name is empty excepted; on any other type it panics.
  pub match_returns_iff :
      (t : GoType) (params : Params Float)
      → ((m : Matcher Float) × (match is_zero_float default_float scanf t params ≡ returns m))
        ↔ IsSupported scanf t
  match_returns_iff t params = (λ r. match_supported t params r.0 r.1, supported_match t params)
