-- ===== src/Common/Steps.antt =====
-- Steps that can fail, one behind the other, as the statements of a Go function that returns the
-- first error.
use mathlib.Core.List.{List, [], ◌∷◌}
use mathlib.Core.Option.{Option, none, some}
use mathlib.Core.Path.{◌≡◌, refl}
use pact_go.Common.Results.{Error}

-- `if err != nil { return err }`
unfoldable pub unless_failed :
    {W : Type 0} → W × Option Error → (W → W × Option Error) → W × Option Error
unless_failed (w, some x) rest = (w, some x)
unless_failed (w, none) rest = rest w

-- Steps one behind the other, up to the first that fails.
unfoldable pub run_steps : {W : Type 0} → List (W → W × Option Error) → W → W × Option Error
run_steps [] w = (w, none)
run_steps (step ∷ steps) w = unless_failed (step w) (run_steps steps)

pub unless_failed_assoc :
    {W : Type 0} (r : W × Option Error) (f g : W → W × Option Error)
    → unless_failed (unless_failed r f) g ≡ unless_failed r (λ w. unless_failed (f w) g)
unfolding unless_failed
unless_failed_assoc (w, none) f g = refl
unless_failed_assoc (w, some x) f g = refl

pub unless_failed-none : {W : Type 0} (r : W × Option Error) → unless_failed r (λ w. (w, none)) ≡ r
unfolding unless_failed
unless_failed-none (w, none) = refl
unless_failed-none (w, some x) = refl
