-- ===== src/Common/Results.antt =====
-- The result pair `(value, error)` of a Go function, where the code reads the value only if the
-- error is nil; and what a call does when it may panic.
use mathlib.Core.List.{List}
use mathlib.Core.Logic.{◌⊎◌, inl, inr}
use mathlib.Core.Path.{◌≡◌, refl}
use Prim.Native.Nat.{ℕ}

-- An error is known by its text.
abbrev pub Error : Type 0
Error = List ℕ

pub data Result {ℓ} (A : Type ℓ) : Type ℓ where
  ok : A → Result A
  err : Error → Result A

pub data Outcome {ℓ} (A : Type ℓ) : Type ℓ where
  returns : A → Outcome A
  panics : Outcome A

infixl 5 ◌>>=◌
abbrev pub ◌>>=◌ {ℓ κ} : {A : Type ℓ} {B : Type κ} → Outcome A → (A → Outcome B) → Outcome B
returns a >>= f = f a
panics >>= f = panics

pub returns_inj : {A : Type 0} {a b : A} → returns a ≡ returns b → a ≡ b
returns_inj e = cc

-- A part of a chain that returns has returned.
pub >>=_inv :
    {A B : Type 0} (o : Outcome A) (f : A → Outcome B) {b : B}
    → (o >>= f) ≡ returns b
    → (a : A) × (o ≡ returns a) × (f a ≡ returns b)
>>=_inv (returns a) f e = (a, refl, e)
>>=_inv panics f e = absurd (cc)

pub Result-cases :
    {A : Type 0} (r : Result A) → ((e : Error) × (r ≡ err e)) ⊎ ((a : A) × (r ≡ ok a))
Result-cases (ok a) = inr (a, refl)
Result-cases (err e) = inl (e, refl)

pub ok-ne-err : {A : Type 0} {a : A} {e : Error} → ok a ≡ err e → ⊥
ok-ne-err h = cc
