-- ===== src/Types/Selector.antt =====
-- types/consumer_version_selector.go, and the loop over selectors of types/verify_request.go.
pub mod Loop
use pact_go.Common.{
  Text, bytes, is_empty, Error, Result, ok, err, Bool, true, false, not, ◌&&◌, Option, none, some,
  List, [], ◌∷◌, ◌++◌, ◌≡◌, ◌≢◌, ◌↔◌, if◌then◌else◌, arith,
}
use pact_go.Types.Args.{Method, done, add, fail, ◌>>◌}

pub record ConsumerVersionSelector : Type 0 where
  pub pacticipant : Text
  pub tag : Text
  pub version : Text
  pub latest : Bool
  pub all : Bool

unfoldable pub validate : ConsumerVersionSelector → Option Error
validate c =
    if c.all && is_empty c.pacticipant
    then some (bytes "must provide a Pacticpant")
    else if not (is_empty c.pacticipant) && is_empty c.tag
    then some (bytes "must provide at least a Tag if Pacticpant specified")
    else if c.all && c.latest
    then some (bytes "cannot select both All and Latest")
    else none

-- What a selector has to be: All needs a pacticipant, a pacticipant needs a tag, and All excludes
-- Latest.
pub record IsValid (c : ConsumerVersionSelector) : Type 0 where
  pub all_named : c.all ≡ true → c.pacticipant ≢ []
  pub tagged : c.pacticipant ≢ [] → c.tag ≢ []
  pub one_of : c.all ≡ true → c.latest ≡ false

-- A selector is accepted exactly when it is valid.
pub selector_validate_iff : (c : ConsumerVersionSelector) → (validate c ≡ none) ↔ IsValid c
unfolding validate
selector_validate_iff c = (
  λ e. record { all_named = ground arith; tagged = ground arith; one_of = ground arith },
  λ v. grind (arith, v.all_named, v.tagged, v.one_of),
)

abbrev pub invalid_selector : Error → Error
invalid_selector e = bytes "invalid consumer version selector specified: " ++ e

-- `json.Marshal` of a selector
module _ (marshal : ConsumerVersionSelector → Result Text) where
  -- One round of the loop.
  unfoldable pub add_selector : ConsumerVersionSelector → Method
  add_selector selector = elim (validate selector) [
    | some e ↦ fail (invalid_selector e)
    | none ↦ elim (marshal selector) [
      | err e ↦ fail (invalid_selector e)
      | ok body ↦ add true (bytes "--consumer-version-selector" ∷ body ∷ [])
    ]
  ]

  unfoldable pub add_selectors : List ConsumerVersionSelector → Method
  add_selectors [] = done
  add_selectors (selector ∷ rest) = add_selector selector >> add_selectors rest

  -- The selectors are valid, and these are their JSON texts.
  pub data Encodes : List ConsumerVersionSelector → List Text → Type 0 where
    nil : Encodes [] []
    cons :
        {c : ConsumerVersionSelector} {body : Text} {cs : List ConsumerVersionSelector}
        {bodies : List Text}
        → IsValid c
        → marshal c ≡ ok body
        → Encodes cs bodies
        → Encodes (c ∷ cs) (body ∷ bodies)
