-- ===== src/Dsl/Matcher/Json/RoundTrip.antt =====
-- dsl/matcher.go: a reader of the JSON forms of matchers, which gives them back. It knows the classes
-- and the names of the fields as the Ruby tools do.
use pact_go.Common.{
  ℤ, pos, zero, Text, bytes, text_eq, Bool, true, false, Option, none, some, ◌≡◌, refl,
  if◌then◌else◌, ◌&&◌,
}
use pact_go.Dsl.Matcher.{
  Matcher, each_like, like, term, plain, struct_matcher, Content, text, int, float, bool, matcher,
  nil, slice, members, Items, no_items, item, Entries, end, entry,
}
use pact_go.Dsl.Matcher.Json.{
  Json, null, string, number, fraction, truth, object, Fields, no_more, field, matcher_json,
  content_json, entries_json, items_json, array, Elements, no_elements, element,
}

module _ {Float : Type 0} where
  abbrev entry_of : Text → Option (Matcher Float) → Option (Entries Float) → Option (Entries Float)
  entry_of k (some m) (some es) = some (entry k m es)
  entry_of k _ _ = none

  abbrev struct_of : Option (Entries Float) → Option (Matcher Float)
  struct_of (some es) = some (struct_matcher es)
  struct_of none = none

  abbrev like_of : Option (Content Float) → Option (Matcher Float)
  like_of (some c) = some (like c)
  like_of none = none

  abbrev each_like_of : Option (Content Float) → ℤ → Option (Matcher Float)
  each_like_of (some c) n = some (each_like c n)
  each_like_of none n = none

  abbrev matcher_of : Option (Matcher Float) → Option (Content Float)
  matcher_of (some m) = some (matcher m)
  matcher_of none = none

  -- A regular expression as the class of Ruby is written.
  abbrev read_regexp : Json Float → Option Text
  read_regexp
        (object (field k (string c) (field o (number (pos zero)) (field e (string r) no_more)))) =
      if text_eq k (bytes "json_class")
        && text_eq c (bytes "Regexp")
        && text_eq o (bytes "o")
        && text_eq e (bytes "s")
      then some r
      else none
  read_regexp _ = none

  abbrev term_of : Text → Option Text → Option (Matcher Float)
  term_of g (some r) = some (term g r)
  term_of g none = none

  abbrev slice_of : Option (Items Float) → Option (Content Float)
  slice_of (some is) = some (slice is)
  slice_of none = none

  abbrev item_of : Option (Content Float) → Option (Items Float) → Option (Items Float)
  item_of (some c) (some is) = some (item c is)
  item_of _ _ = none

  abbrev read_term : Json Float → Option (Matcher Float)
  read_term (object (field d (string g) (field e v no_more))) =
      let read = term_of g (read_regexp v) in
      if text_eq d (bytes "generate") && text_eq e (bytes "matcher") then read else none
  read_term _ = none

  -- An object whose first field is a class is read by it, with the fields of that class by their
  -- names, and any other as a map.
  unfoldable mutual
    pub read_matcher : Json Float → Option (Matcher Float)
    read_matcher (string s) = some (plain s)
    read_matcher (object fs) = read_object fs
    read_matcher _ = none

    pub read_object : Fields Float → Option (Matcher Float)
    read_object no_more = some (struct_matcher end)
    read_object (field k v rest) =
        let by_class = read_classed v rest in
        let as_map = struct_of (entry_of k (read_matcher v) (read_entries rest)) in
        if text_eq k (bytes "json_class") then by_class else as_map

    pub read_classed : Json Float → Fields Float → Option (Matcher Float)
    read_classed (string c) (field k v no_more) =
        let contents = read_content v in
        if text_eq c (bytes "Pact::SomethingLike") && text_eq k (bytes "contents")
        then like_of contents
        else if text_eq c (bytes "Pact::Term") && text_eq k (bytes "data")
        then read_term v
        else none
    read_classed (string c) (field k v (field l (number n) no_more)) =
        let contents = read_content v in
        if text_eq c (bytes "Pact::ArrayLike")
          && text_eq k (bytes "contents")
          && text_eq l (bytes "min")
        then each_like_of contents n
        else none
    read_classed _ _ = none

    pub read_entries : Fields Float → Option (Entries Float)
    read_entries no_more = some end
    read_entries (field k v rest) = entry_of k (read_matcher v) (read_entries rest)

    pub read_content : Json Float → Option (Content Float)
    read_content null = some nil
    read_content (string s) = some (text s)
    read_content (number n) = some (int n)
    read_content (fraction f) = some (float f)
    read_content (truth b) = some (bool b)
    read_content (object fs) = matcher_of (read_object fs)
    read_content (array es) = slice_of (read_items es)

    pub read_items : Elements Float → Option (Items Float)
    read_items no_elements = some no_items
    read_items (element v es) = item_of (read_content v) (read_items es)

  abbrev pub is_plain : Matcher Float → Bool
  is_plain (plain s) = true
  is_plain _ = false

  -- No struct has a key for a class, and no contents are a string that is wrapped in a matcher, which
  -- has the JSON of the string, or a struct or map that is no matcher, which has the JSON of one.
  unfoldable mutual
    pub IsReadable : Matcher Float → Type 0
    IsReadable (each_like c n) = ContentIsReadable c
    IsReadable (like c) = ContentIsReadable c
    IsReadable (term g r) = Unit
    IsReadable (plain s) = Unit
    IsReadable (struct_matcher es) = EntriesAreReadable es

    pub ContentIsReadable : Content Float → Type 0
    ContentIsReadable (matcher m) = (is_plain m ≡ false) × IsReadable m
    ContentIsReadable (slice is) = ItemsAreReadable is
    ContentIsReadable (members ms) = true ≡ false
    ContentIsReadable _ = Unit

    pub ItemsAreReadable : Items Float → Type 0
    ItemsAreReadable no_items = Unit
    ItemsAreReadable (item c is) = ContentIsReadable c × ItemsAreReadable is

    pub EntriesAreReadable : Entries Float → Type 0
    EntriesAreReadable end = Unit
    EntriesAreReadable (entry k m es) =
        (text_eq k (bytes "json_class") ≡ false) × IsReadable m × EntriesAreReadable es

  -- Contents that are no plain string are read as a matcher is.
  read_content-matcher_json :
      (m : Matcher Float)
      → is_plain m ≡ false
      → read_content (matcher_json m) ≡ matcher_of (read_matcher (matcher_json m))
  unfolding matcher_json read_content
  read_content-matcher_json (each_like c n) h = refl
  read_content-matcher_json (like c) h = refl
  read_content-matcher_json (term g r) h = refl
  read_content-matcher_json (plain s) h = absurd (cc)
  read_content-matcher_json (struct_matcher es) h = refl

  mutual
    unfolding matcher_json content_json entries_json items_json read_matcher read_object
        read_content read_entries read_items IsReadable text_eq bytes

    reads-matcher_json : (m : Matcher Float) → IsReadable m → read_matcher (matcher_json m) ≡ some m
    reads-matcher_json (each_like c n) h = rw (read_content-content_json c h) refl
    reads-matcher_json (like c) h = rw (read_content-content_json c h) refl
    reads-matcher_json (term g r) h = refl
    reads-matcher_json (plain s) h = refl
    reads-matcher_json (struct_matcher es) h = read_object-entries_json es h

    read_content-content_json :
        (c : Content Float) → ContentIsReadable c → read_content (content_json c) ≡ some c
    read_content-content_json (text s) h = refl
    read_content-content_json (int n) h = refl
    read_content-content_json (float f) h = refl
    read_content-content_json (bool b) h = refl
    read_content-content_json (matcher m) h =
        rw (read_content-matcher_json m h.0, reads-matcher_json m h.1) refl
    read_content-content_json nil h = refl
    read_content-content_json (slice is) h = rw (read_items-items_json is h) refl
    read_content-content_json (members ms) h = absurd (cc)

    read_items-items_json :
        (is : Items Float) → ItemsAreReadable is → read_items (items_json is) ≡ some is
    read_items-items_json no_items h = refl
    read_items-items_json (item c is) h =
        rw (read_content-content_json c h.0, read_items-items_json is h.1) refl

    read_object-entries_json :
        (es : Entries Float)
        → EntriesAreReadable es
        → read_object (entries_json es) ≡ some (struct_matcher es)
    read_object-entries_json end h = refl
    read_object-entries_json (entry k m es) h =
        rw (h.0, reads-matcher_json m h.1, read_entries-entries_json es h.2) refl

    read_entries-entries_json :
        (es : Entries Float) → EntriesAreReadable es → read_entries (entries_json es) ≡ some es
    read_entries-entries_json end h = refl
    read_entries-entries_json (entry k m es) h =
        rw (reads-matcher_json m h.1, read_entries-entries_json es h.2) refl

  pub read-matcher_json :
      (m : Matcher Float) → IsReadable m → read_matcher (matcher_json m) ≡ some m
  read-matcher_json m h = reads-matcher_json m h
