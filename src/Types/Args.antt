-- ===== src/Types/Args.antt =====
-- The `Validate` methods of types/ and of dsl/verify_mesage_request.go, as the code writes them: a
-- sequence of statements that append to `Args` and return at the first error. `Args` is kept when
-- a method fails.
use pact_go.Common.{
  Text, Error, Bool, true, false, Option, none, some, List, [], ◌∷◌, ◌++◌, append_assoc, append-nil,
  arith, ◌≡◌, refl, ap, ◌∙◌, if◌then◌else◌,
}

abbrev pub Method : Type 0
Method = List Text → List Text × Option Error

-- `return nil`
unfoldable pub done : Method
done args = (args, none)

-- `if given { v.Args = append(v.Args, flags...) }`
unfoldable pub add : Bool → List Text → Method
add given flags args = ((if given then args ++ flags else args), none)

-- `if bad { return error }`
unfoldable pub fail_if : Bool → Error → Method
fail_if bad e args = (args, (if bad then some e else none))

-- `return error`
unfoldable pub fail : Error → Method
fail e args = (args, some e)

infixr 5 ◌>>◌
unfoldable pub ◌>>◌ : Method → Method → Method
(first >> rest) args =
    let (args', e) = first args in elim e [ none ↦ rest args' | some e' ↦ (args', some e') ]

-- What an `add` appends.
abbrev pub given : Bool → List Text → List Text
given true flags = flags
given false flags = []

-- `for _, x := range xs { v.Args = append(v.Args, flag, x) }`
unfoldable pub add_each : Text → List Text → Method
unfolding done add ◌>>◌
add_each flag [] = done
add_each flag (x ∷ xs) = add true (flag ∷ x ∷ []) >> add_each flag xs

-- What an `add_each` appends.
unfoldable pub each : Text → List Text → List Text
each flag [] = []
each flag (x ∷ xs) = flag ∷ x ∷ each flag xs

pub add->> :
    (b : Bool) (flags : List Text) (rest : Method) (args : List Text)
    → (add b flags >> rest) args ≡ rest (args ++ given b flags)
unfolding add ◌>>◌
add->> true flags rest args = refl
add->> false flags rest args = rw append-nil

pub fail_if->> :
    (b : Bool) (e : Error) (rest : Method) (args : List Text)
    → (fail_if b e >> rest) args ≡ (if b then (args, some e) else rest args)
unfolding fail_if ◌>>◌
fail_if->> true e rest args = refl
fail_if->> false e rest args = refl

pub >>-assoc :
    (first second rest : Method) (args : List Text)
    → ((first >> second) >> rest) args ≡ (first >> second >> rest) args
unfolding ◌>>◌
>>-assoc first second rest args = ground arith

pub add_each->> :
    (flag : Text) (xs : List Text) (rest : Method) (args : List Text)
    → (add_each flag xs >> rest) args ≡ rest (args ++ each flag xs)
unfolding add_each each ◌>>◌
add_each->> flag [] rest args = rw append-nil
add_each->> flag (x ∷ xs) rest args =
    add_each->> flag xs rest (args ++ flag ∷ x ∷ []) ∙ ap rest (append_assoc args (flag ∷ x ∷ []) _)

pub done_lem : (args : List Text) → done args ≡ (args, none)
unfolding done
done_lem args = refl

-- The error of a statement that may return.
pub if-error :
    (b : Bool) (x y : List Text × Option Error) → (if b then x else y).1 ≡ (if b then x.1 else y.1)
if-error true x y = refl
if-error false x y = refl

pub ruleset method_laws = (add->>, fail_if->>, add_each->>, done_lem)
