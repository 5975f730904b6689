-- ===== src/Dsl/Matcher/Match/Shape.antt =====
-- The shape of a Go type, for the matchers of dsl/matcher.go.
use pact_go.Common.{
  Text, text_eq, text_eq_iff, some, ◌≡◌, ◌⊎◌, inl, inr, refl, if◌then◌else◌, arith, Bool-cases,
}
use pact_go.Dsl.Matcher.{
  Matcher, each_like, like, term, struct_matcher, Content, text, int, float, matcher, Entries,
  entry, set_entry, get_entry,
}
use pact_go.Dsl.Matcher.Tags.{
  GoType, ptr, slice, array, struct, integer, floating, Fields, field, get_json_field_name,
}

module _ {Float : Type 0} where
  unfoldable mutual
    -- A pointer has the shape of what it points to, a slice or an array is an `EachLike` of its
    -- element's shape, a struct is a map of which every entry comes from a field, and a string, a
    -- boolean or a number is a `Like` of a value of its kind; a string may be a `Term`.
    pub HasShape : GoType → Matcher Float → Type 0
    HasShape (ptr t) m = HasShape t m
    HasShape (slice t) (each_like (matcher m) min) = HasShape t m
    HasShape (array t) (each_like (matcher m) min) = HasShape t m
    HasShape (struct fs) (struct_matcher es) =
        (key : Text) (m : Matcher Float) → get_entry key es ≡ some m → IsFieldOf fs key m
    HasShape GoType.string (like (text s)) = Unit
    HasShape GoType.string (term generate regex) = Unit
    HasShape GoType.bool (like (Content.bool b)) = Unit
    HasShape (integer k) (like (int n)) = Unit
    HasShape (floating k) (like (float x)) = Unit
    HasShape _ _ = ⊥

    -- One of the fields has this JSON name, and its type has this shape.
    pub IsFieldOf : Fields → Text → Matcher Float → Type 0
    IsFieldOf Fields.end key m = ⊥
    IsFieldOf (field name json_tag pact_tag t fs) key m =
        ((get_json_field_name name json_tag ≡ key) × HasShape t m) ⊎ IsFieldOf fs key m

  pub get_entry-set_entry :
      (key k : Text) (m : Matcher Float) (es : Entries Float)
      → get_entry key (set_entry k m es) ≡ (if text_eq k key then some m else get_entry key es)
  unfolding get_entry set_entry
  get_entry-set_entry key k m Entries.end = refl
  get_entry-set_entry key k m (entry j old es) =
      ground (
        arith,
        get_entry-set_entry key k m es,
        text_eq_iff j k,
        text_eq_iff j key,
        text_eq_iff k key,
      )

  -- A key of the updated map has the new entry, or its old one.
  pub set_entry_inv :
      (key k : Text) (m' m : Matcher Float) (es : Entries Float)
      → get_entry key (set_entry k m' es) ≡ some m
      → ((k ≡ key) × (m' ≡ m)) ⊎ (get_entry key es ≡ some m)
  set_entry_inv key k m' m es e = elim (Bool-cases (text_eq k key)) [
    | inl same ↦
        let e' = rw (get_entry-set_entry key k m' es, same) at e in
        inl ((text_eq_iff k key).0 same, cc)
    | inr differs ↦ inr (rw (get_entry-set_entry key k m' es, differs) at e)
  ]

pub no_entry :
    {Float : Type 0} {P : Type 0} (key : Text) (m : Matcher Float)
    → P ⊎ (get_entry key Entries.end ≡ some m)
    → P
unfolding get_entry
no_entry key m (inl p) = p
no_entry key m (inr e) = absurd (cc)

module _ {Float : Type 0} (name json_tag pact_tag key : Text) (t : GoType) (fs : Fields)
    (m : Matcher Float) where
  pub add_field :
      {Q : Type 0}
      → IsFieldOf fs key m ⊎ Q
      → IsFieldOf (field name json_tag pact_tag t fs) key m ⊎ Q
  unfolding IsFieldOf
  add_field (inl f) = inl (inr f)
  add_field (inr q) = inr q

  pub fill_field :
      (m' : Matcher Float) (result : Entries Float)
      → HasShape t m'
      → IsFieldOf fs key m
        ⊎ (get_entry key (set_entry (get_json_field_name name json_tag) m' result) ≡ some m)
      → IsFieldOf (field name json_tag pact_tag t fs) key m ⊎ (get_entry key result ≡ some m)
  unfolding IsFieldOf
  fill_field m' result shape (inl f) = inl (inr f)
  fill_field m' result shape (inr e) = elim (set_entry_inv key _ m' m result e) [
    | inl (same, new) ↦ inl (inl (same, rw (← new) shape))
    | inr old ↦ inr old
  ]
