-- ===== src/Dsl/Matcher/Match/Sound.antt =====
-- The matcher that `match` of dsl/matcher.go gives has the shape of the type.
use pact_go.Common.{
  Text, is_empty, returns, returns_inj, >>=_inv, Bool, true, not, some, ◌≡◌, ◌⊎◌, inl, inr,
  Bool-cases,
}
use pact_go.Dsl.Matcher.{Matcher, Entries, set_entry, get_entry}
use pact_go.Dsl.Matcher.Tags.{
  GoType, IntKind, FloatKind, ptr, slice, array, struct, integer, floating, other, Fields, field,
  Params, Sscanf, get_defaults, get_json_field_name, pluck_params,
}
use pact_go.Dsl.Matcher.Match.{
  is_zero, match, match_fields, match_string, match_bool, match_integer, match_float,
}
use pact_go.Dsl.Matcher.Match.Shape.{HasShape, IsFieldOf, no_entry, add_field, fill_field}

module _ {Float : Type 0} (is_zero_float : Float → Bool) (default_float : Float)
    (scanf : Sscanf Float) where
  match_string-HasShape :
      (p : Params Float) → HasShape GoType.string (match_string is_zero_float default_float scanf p)
  unfolding match_string HasShape
  match_string-HasShape p = elim (Bool-cases (is_empty p.str_reg_ex)) [
    | inl e ↦
        rw (e, not)
          (elim (Bool-cases (is_empty p.str_example)) [
            | inl e' ↦ rw (e', not) tt
            | inr e' ↦ rw (e', not) tt
          ])
    | inr e ↦ rw (e, not) tt
  ]

  match_bool-HasShape :
      (p : Params Float) → HasShape GoType.bool (match_bool is_zero_float default_float scanf p)
  unfolding match_bool HasShape
  match_bool-HasShape p = elim (Bool-cases p.boolean_defined) [ inl e ↦ rw e tt | inr e ↦ rw e tt ]

  match_integer-HasShape :
      (k : IntKind) (p : Params Float)
      → HasShape (integer k) (match_integer is_zero_float default_float scanf p)
  unfolding match_integer HasShape
  match_integer-HasShape k p = elim (Bool-cases (is_zero p.number_integer)) [
    | inl e ↦ rw (e, not) tt
    | inr e ↦ rw (e, not) tt
  ]

  match_float-HasShape :
      (k : FloatKind) (p : Params Float)
      → HasShape (floating k) (match_float is_zero_float default_float scanf p)
  unfolding match_float HasShape
  match_float-HasShape k p = elim (Bool-cases (is_zero_float p.number_float)) [
    | inl e ↦ rw (e, not) tt
    | inr e ↦ rw (e, not) tt
  ]

  -- One round of the loop over fields that goes on.
  pub match_fields_inv :
      (name json_tag pact_tag : Text) (t : GoType) (fs : Fields) (result es : Entries Float)
      → match_fields is_zero_float default_float scanf (field name json_tag pact_tag t fs) result
        ≡ returns es
      → ((is_empty (get_json_field_name name json_tag) ≡ true)
          × (match_fields is_zero_float default_float scanf fs result ≡ returns es))
        ⊎ ((params : Params Float) × (m : Matcher Float) × (pluck_params scanf t pact_tag
              ≡ returns params)
            × (match is_zero_float default_float scanf t params ≡ returns m)
            × (match_fields is_zero_float default_float scanf fs
                  (set_entry (get_json_field_name name json_tag) m result)
                ≡ returns es))
  unfolding match_fields
  match_fields_inv name json_tag pact_tag t fs result es e =
      elim (Bool-cases (is_empty (get_json_field_name name json_tag))) [
        | inl empty ↦ inl (empty, rw empty at e)
        | inr named ↦
            let (params, e₁, e₂) = >>=_inv (pluck_params scanf t pact_tag) _ (rw named at e) in
            let (m, e₃, e₄) = >>=_inv (match is_zero_float default_float scanf t params) _ e₂ in
            inr (params, m, e₁, e₃, e₄)
      ]

  mutual
    unfolding match HasShape

    match_shape :
        (t : GoType) (params : Params Float) (m : Matcher Float)
        → match is_zero_float default_float scanf t params ≡ returns m
        → HasShape t m
    match_shape (ptr t) params m e = match_shape t params m e
    match_shape (slice t) params m e =
        let (m', e₁, e₂) =
          >>=_inv (match is_zero_float default_float scanf t (get_defaults scanf)) _ e in
        rw (← (returns_inj e₂)) (match_shape t (get_defaults scanf) m' e₁)
    match_shape (array t) params m e =
        let (m', e₁, e₂) =
          >>=_inv (match is_zero_float default_float scanf t (get_defaults scanf)) _ e in
        rw (← (returns_inj e₂)) (match_shape t (get_defaults scanf) m' e₁)
    match_shape (struct fs) params m e =
        let (es, e₁, e₂) =
          >>=_inv (match_fields is_zero_float default_float scanf fs Entries.end) _ e in
        rw (← (returns_inj e₂)) (λ key m' found.
          no_entry key m' (match_fields-IsFieldOf fs Entries.end es e₁ key m' found))
    match_shape GoType.string params m e = rw (← (returns_inj e)) (match_string-HasShape params)
    match_shape GoType.bool params m e = rw (← (returns_inj e)) (match_bool-HasShape params)
    match_shape (integer k) params m e = rw (← (returns_inj e)) (match_integer-HasShape k params)
    match_shape (floating k) params m e = rw (← (returns_inj e)) (match_float-HasShape k params)
    match_shape other params m e = absurd (cc)

    match_fields-IsFieldOf :
        (fs : Fields) (result es : Entries Float)
        → match_fields is_zero_float default_float scanf fs result ≡ returns es
        → (key : Text) (m : Matcher Float) → get_entry key es ≡ some m
        → IsFieldOf fs key m ⊎ (get_entry key result ≡ some m)
    match_fields-IsFieldOf Fields.end result es e key m found = inr (rw (returns_inj e) found)
    match_fields-IsFieldOf (field name json_tag pact_tag t fs) result es e key m found =
        elim (match_fields_inv name json_tag pact_tag t fs result es e) [
          | inl (_, e') ↦
              add_field name json_tag pact_tag key t fs m
                (match_fields-IsFieldOf fs result es e' key m found)
          | inr (params, m', _, matched, e') ↦
              fill_field name json_tag pact_tag key t fs m m' result
                (match_shape t params m' matched)
                (match_fields-IsFieldOf fs (set_entry (get_json_field_name name json_tag) m' result)
                  es e' key m found)
        ]

  -- Every matcher that `Match` returns has the shape of the type it was made for.
  pub match-HasShape :
      (t : GoType) (params : Params Float) (m : Matcher Float)
      → match is_zero_float default_float scanf t params ≡ returns m
      → HasShape t m
  match-HasShape t params m e = match_shape t params m e
