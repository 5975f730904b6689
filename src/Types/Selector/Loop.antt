-- ===== src/Types/Selector/Loop.antt =====
-- The loop over selectors succeeds exactly when every selector is valid and has a JSON text.
use pact_go.Common.{
  Text, bytes, Error, Result, ok, err, Option, none, some, List, [], ◌∷◌, ◌++◌, append_assoc,
  append-nil, ◌≡◌, refl, sym, ap, ◌∙◌, arith,
}
use pact_go.Types.Args.{Method, done, add, fail, ◌>>◌, >>-assoc, each}
use pact_go.Types.Selector.{
  ConsumerVersionSelector, validate, selector_validate_iff, add_selector, add_selectors, Encodes,
  nil, cons,
}

module _ (marshal : ConsumerVersionSelector → Result Text) where
  -- One round, on a valid selector and on any.
  add_selector->> :
      (c : ConsumerVersionSelector) (body : Text) (rest : Method) (args : List Text)
      → validate c ≡ none
      → marshal c ≡ ok body
      → (add_selector marshal c >> rest) args
        ≡ rest (args ++ bytes "--consumer-version-selector" ∷ body ∷ [])
  unfolding add_selector ◌>>◌ add
  add_selector->> c body rest args valid encoded = ground arith

  add_selector_inv :
      (c : ConsumerVersionSelector) (rest : Method) (args out : List Text)
      → (add_selector marshal c >> rest) args ≡ (out, none)
      → (body : Text) × (validate c ≡ none)
        × (marshal c ≡ ok body)
        × (rest (args ++ bytes "--consumer-version-selector" ∷ body ∷ []) ≡ (out, none))
  unfolding add_selector ◌>>◌ add fail
  add_selector_inv c rest args out e = go (validate c) (marshal c) refl refl
    where
      go :
          (v : Option Error) (m : Result Text)
          → validate c ≡ v
          → marshal c ≡ m
          → (body : Text) × (validate c ≡ none)
            × (marshal c ≡ ok body)
            × (rest (args ++ bytes "--consumer-version-selector" ∷ body ∷ []) ≡ (out, none))
      go (some x) m p q = absurd (ground (arith, p, e))
      go none (err x) p q = absurd (ground (arith, p, q, e))
      go none (ok body) p q = (body, p, q, ground (arith, p, q, e))

  pub add_selectors->> :
      {cs : List ConsumerVersionSelector} {bodies : List Text} (rest : Method) (args : List Text)
      → Encodes marshal cs bodies
      → (add_selectors marshal cs >> rest) args
        ≡ rest (args ++ each (bytes "--consumer-version-selector") bodies)
  unfolding add_selectors each
  add_selectors->> rest args nil = unfold ◌>>◌ done in rw append-nil
  add_selectors->> rest args (cons {c} {body} {cs} valid encoded more) =
      >>-assoc (add_selector marshal c) (add_selectors marshal cs) rest args
      ∙ add_selector->> c body (add_selectors marshal cs >> rest) args
          ((selector_validate_iff c).1 valid) encoded
      ∙ add_selectors->> rest (args ++ bytes "--consumer-version-selector" ∷ body ∷ []) more
      ∙ ap rest (append_assoc args (bytes "--consumer-version-selector" ∷ body ∷ []) _)

  pub add_selectors_inv :
      (cs : List ConsumerVersionSelector) (rest : Method) (args out : List Text)
      → (add_selectors marshal cs >> rest) args ≡ (out, none)
      → (bodies : List Text) × Encodes marshal cs bodies
        × (rest (args ++ each (bytes "--consumer-version-selector") bodies) ≡ (out, none))
  unfolding add_selectors each
  add_selectors_inv [] rest args out e = ([], nil, unfold ◌>>◌ done in rw append-nil e)
  add_selectors_inv (c ∷ cs) rest args out e =
      let (body, valid, encoded, e₁) =
        add_selector_inv c (add_selectors marshal cs >> rest) args out
          (sym (>>-assoc (add_selector marshal c) (add_selectors marshal cs) rest args) ∙ e) in
      let (bodies, more, e₂) =
        add_selectors_inv cs rest (args ++ bytes "--consumer-version-selector" ∷ body ∷ []) out
          e₁ in
      (
        body ∷ bodies,
        cons ((selector_validate_iff c).0 valid) encoded more,
        ap rest (sym (append_assoc args (bytes "--consumer-version-selector" ∷ body ∷ []) _)) ∙ e₂,
      )
