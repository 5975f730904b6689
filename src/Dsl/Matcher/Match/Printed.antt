-- ===== src/Dsl/Matcher/Match/Printed.antt =====
-- The JSON form of what `match` of dsl/matcher.go gives for a Go type.
use pact_go.Common.{
  Text, is_empty, text_eq, returns, returns_inj, >>=_inv, Bool, true, false, some, ◌≡◌, ◌⊎◌, inl,
  inr, refl, Bool-cases, not, if◌then◌else◌,
}
use pact_go.Dsl.Matcher.{Matcher, Entries, entry, set_entry}
use pact_go.Dsl.Matcher.Tags.{
  GoType, ptr, slice, array, struct, integer, floating, other, Fields, field, Params, Sscanf,
  get_defaults, get_json_field_name,
}
use pact_go.Dsl.Matcher.Match.{
  match, match_fields, match_string, match_bool, match_integer, match_float, is_zero,
}
use pact_go.Dsl.Matcher.Match.Shape.{HasShape}
use pact_go.Dsl.Matcher.Match.Sound.{match_fields_inv, match-HasShape}
use pact_go.Dsl.Matcher.Json.{json_class, matcher_json}
use pact_go.Dsl.Matcher.Json.RoundTrip.{
  is_plain, IsReadable, EntriesAreReadable, read_matcher, read-matcher_json,
}

-- No struct field that is matched has the JSON name `json_class`.
unfoldable mutual
  pub HasNoClass : GoType → Type 0
  HasNoClass (ptr t) = HasNoClass t
  HasNoClass (slice t) = HasNoClass t
  HasNoClass (array t) = HasNoClass t
  HasNoClass (struct fs) = HaveNoClass fs
  HasNoClass _ = Unit

  pub HaveNoClass : Fields → Type 0
  HaveNoClass Fields.end = Unit
  HaveNoClass (field name json_tag pact_tag t fs) =
      ((is_empty (get_json_field_name name json_tag) ≡ true)
        ⊎ ((text_eq (get_json_field_name name json_tag) json_class ≡ false) × HasNoClass t))
      × HaveNoClass fs

module _ {Float : Type 0} where
  set_entry-AreReadable :
      (k : Text) (m : Matcher Float) (es : Entries Float)
      → text_eq k json_class ≡ false
      → IsReadable m
      → EntriesAreReadable es
      → EntriesAreReadable (set_entry k m es)
  unfolding set_entry EntriesAreReadable
  set_entry-AreReadable k m Entries.end h r rs = (h, r, tt)
  set_entry-AreReadable k m (entry j old es) h r rs = elim (Bool-cases (text_eq j k)) [
    | inl same ↦ rw same (rs.0, r, rs.2)
    | inr differs ↦ rw differs (rs.0, rs.1, set_entry-AreReadable k m es h r rs.2)
  ]

  -- A matcher that is no plain string and is read from its JSON form.
  abbrev IsPrinted : Matcher Float → Type 0
  IsPrinted m = (is_plain m ≡ false) × IsReadable m

  if-IsPrinted :
      (b : Bool) (x y : Matcher Float) → IsPrinted x → IsPrinted y → IsPrinted (if b then x else y)
  if-IsPrinted true x y h k = h
  if-IsPrinted false x y h k = k

module _ {Float : Type 0} (is_zero_float : Float → Bool) (default_float : Float)
    (scanf : Sscanf Float) where
  match_string-IsPrinted :
      (params : Params Float) → IsPrinted (match_string is_zero_float default_float scanf params)
  unfolding match_string IsReadable
  match_string-IsPrinted params =
      if-IsPrinted (not (is_empty params.str_reg_ex)) _ _ (refl, tt)
        (if-IsPrinted (not (is_empty params.str_example)) _ _ (refl, tt) (refl, tt))

  match_bool-IsPrinted :
      (params : Params Float) → IsPrinted (match_bool is_zero_float default_float scanf params)
  unfolding match_bool IsReadable
  match_bool-IsPrinted params = if-IsPrinted params.boolean_defined _ _ (refl, tt) (refl, tt)

  match_integer-IsPrinted :
      (params : Params Float) → IsPrinted (match_integer is_zero_float default_float scanf params)
  unfolding match_integer IsReadable
  match_integer-IsPrinted params =
      if-IsPrinted (not (is_zero params.number_integer)) _ _ (refl, tt) (refl, tt)

  match_float-IsPrinted :
      (params : Params Float) → IsPrinted (match_float is_zero_float default_float scanf params)
  unfolding match_float IsReadable
  match_float-IsPrinted params =
      if-IsPrinted (not (is_zero_float params.number_float)) _ _ (refl, tt) (refl, tt)

  match_fields_skipped :
      (name json_tag pact_tag : Text) (t : GoType) (fs : Fields) (result : Entries Float)
      → is_empty (get_json_field_name name json_tag) ≡ true
      → match_fields is_zero_float default_float scanf (field name json_tag pact_tag t fs) result
        ≡ match_fields is_zero_float default_float scanf fs result
  unfolding match_fields
  match_fields_skipped name json_tag pact_tag t fs result empty = rw empty

  mutual
    unfolding match HasNoClass IsReadable

    match-IsPrinted :
        (t : GoType) (params : Params Float) (m : Matcher Float)
        → HasNoClass t
        → match is_zero_float default_float scanf t params ≡ returns m
        → IsPrinted m
    match-IsPrinted (ptr t) params m h e = match-IsPrinted t params m h e
    match-IsPrinted (slice t) params m h e =
        let (m', e₁, e₂) =
          >>=_inv (match is_zero_float default_float scanf t (get_defaults scanf)) _ e in
        rw (← (returns_inj e₂)) (refl, match-IsPrinted t (get_defaults scanf) m' h e₁)
    match-IsPrinted (array t) params m h e =
        let (m', e₁, e₂) =
          >>=_inv (match is_zero_float default_float scanf t (get_defaults scanf)) _ e in
        rw (← (returns_inj e₂)) (refl, match-IsPrinted t (get_defaults scanf) m' h e₁)
    match-IsPrinted (struct fs) params m h e =
        let (es, e₁, e₂) =
          >>=_inv (match_fields is_zero_float default_float scanf fs Entries.end) _ e in
        rw (← (returns_inj e₂)) (refl, match_fields-AreReadable fs Entries.end es h tt e₁)
    match-IsPrinted GoType.string params m h e =
        rw (← (returns_inj e)) (match_string-IsPrinted params)
    match-IsPrinted GoType.bool params m h e = rw (← (returns_inj e)) (match_bool-IsPrinted params)
    match-IsPrinted (integer k) params m h e =
        rw (← (returns_inj e)) (match_integer-IsPrinted params)
    match-IsPrinted (floating k) params m h e =
        rw (← (returns_inj e)) (match_float-IsPrinted params)
    match-IsPrinted other params m h e = absurd (cc)

    match_fields-AreReadable :
        (fs : Fields) (result es : Entries Float)
        → HaveNoClass fs
        → EntriesAreReadable result
        → match_fields is_zero_float default_float scanf fs result ≡ returns es
        → EntriesAreReadable es
    match_fields-AreReadable Fields.end result es h rs e = rw (← (returns_inj e)) rs
    match_fields-AreReadable (field name json_tag pact_tag t fs) result es h rs e = elim h.0 [
      | inl empty ↦
          match_fields-AreReadable fs result es h.1 rs
            (rw (match_fields_skipped name json_tag pact_tag t fs result empty) at e)
      | inr (fresh, inside) ↦
          elim (match_fields_inv is_zero_float default_float scanf name json_tag pact_tag t fs
            result es e) [
              | inl (_, e') ↦ match_fields-AreReadable fs result es h.1 rs e'
              | inr (params, m', _, matched, e') ↦
                  match_fields-AreReadable fs
                    (set_entry (get_json_field_name name json_tag) m' result) es h.1
                    (set_entry-AreReadable (get_json_field_name name json_tag) m' result fresh
                      (match-IsPrinted t params m' inside matched).1 rs)
                    e'
            ]
    ]

  -- The JSON form of the matcher that `Match` returns for a type is read as that matcher, which has
  -- the shape of the type, if no field of a struct in it that is matched has the JSON name
  -- `json_class`.
  pub match-IsRead :
      (t : GoType) (params : Params Float) (m : Matcher Float)
      → HasNoClass t
      → match is_zero_float default_float scanf t params ≡ returns m
      → (read_matcher (matcher_json m) ≡ some m) × HasShape t m
  match-IsRead t params m h e = (
    read-matcher_json m (match-IsPrinted t params m h e).1,
    match-HasShape is_zero_float default_float scanf t params m e,
  )
