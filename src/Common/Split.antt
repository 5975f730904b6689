-- ===== src/Common/Split.antt =====
-- `strings.Split` at a byte that stands once or not at all.
use Prim.Native.Nat.{ℕ}
use mathlib.Core.Path.{◌≡◌, sym, ap, ◌∙◌}
use mathlib.Core.Logic.{◌≢◌}
use mathlib.Core.List.{[], ◌∷◌, ◌++◌, append_assoc, append-nil}
use native.Mathlib.Omega.{arith}
use pact_go.Common.Lists.{All}
use pact_go.Common.Strings.{Text, split, split_from}

abbrev pub LacksByte : ℕ → Text → Type 0
LacksByte b = All (λ c. c ≢ b)

split_from-LacksByte :
    (sep : ℕ) (cur s : Text) → LacksByte sep s → split_from sep cur s ≡ (cur ++ s) ∷ []
unfolding split_from
split_from-LacksByte sep cur [] h = ap (λ t. t ∷ []) (sym (append-nil cur))
split_from-LacksByte sep cur (c ∷ s) h =
    ground (arith, h.0, split_from-LacksByte sep (cur ++ c ∷ []) s h.1, append_assoc cur (c ∷ []) s)

split_from-append :
    (sep : ℕ) (cur s t : Text)
    → LacksByte sep s
    → split_from sep cur (s ++ sep ∷ t) ≡ (cur ++ s) ∷ split_from sep [] t
unfolding split_from
split_from-append sep cur [] t h = ground (arith, append-nil cur)
split_from-append sep cur (c ∷ s) t h =
    ground (arith, h.0, split_from-append sep (cur ++ c ∷ []) s t h.1, append_assoc cur (c ∷ []) s)

pub split-LacksByte : (sep : ℕ) (s : Text) → LacksByte sep s → split s sep ≡ s ∷ []
unfolding split
split-LacksByte sep s h = split_from-LacksByte sep [] s h

pub split_once :
    (sep : ℕ) (s t : Text)
    → LacksByte sep s
    → LacksByte sep t
    → split (s ++ sep ∷ t) sep ≡ s ∷ t ∷ []
unfolding split
split_once sep s t hs ht =
    split_from-append sep [] s t hs ∙ ap (λ ps. s ∷ ps) (split_from-LacksByte sep [] t ht)
