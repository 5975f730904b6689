-- ===== src/Common/Strings.antt =====
-- Go strings, as lists of bytes, and the functions of Go's `strings` package that the code calls.
use Prim.Native.Nat.{ℕ, zero, suc, ◌-◌}
use Prim.Native.Char.{code}
use Prim.Native.String.{String}
use mathlib.Core.Path.{◌≡◌}
use mathlib.Core.Logic.{◌↔◌}
use mathlib.Core.Bool.{Bool, true, false, ◌&&◌, ◌||◌}
use mathlib.Core.List.{List, [], ◌∷◌, ◌++◌, reverse}
use native.Mathlib.Omega.{arith}
use pact_go.Common.Lists.{length}
use pact_go.Common.Tests.{◌==◌, if◌then◌else◌}

abbrev pub Text : Type 0
Text = List ℕ

-- A literal of the source. Every literal that is modelled is ASCII, so its code points are its
-- bytes. Shut, so that a literal is one atom in a proof.
unfoldable pub bytes : String → Text
bytes String.[] = []
bytes (String.◌∷◌ c s) = code c ∷ bytes s

-- `s == ""`
abbrev pub is_empty : Text → Bool
is_empty [] = true
is_empty (c ∷ s) = false

-- `a == b` on strings
unfoldable pub text_eq : Text → Text → Bool
text_eq [] [] = true
text_eq (a ∷ s) (b ∷ t) = a == b && text_eq s t
text_eq _ _ = false

pub text_eq_iff : (s t : Text) → (text_eq s t ≡ true) ↔ (s ≡ t)
unfolding text_eq
text_eq_iff [] [] = ground arith
text_eq_iff (a ∷ s) (b ∷ t) = ground (arith, text_eq_iff s t)
text_eq_iff [] (b ∷ t) = ground arith
text_eq_iff (a ∷ s) [] = ground arith

-- strings.HasPrefix
unfoldable pub has_prefix : Text → Text → Bool
has_prefix s [] = true
has_prefix (a ∷ s) (b ∷ t) = a == b && has_prefix s t
has_prefix [] (b ∷ t) = false

-- strings.HasSuffix
unfoldable pub has_suffix : Text → Text → Bool
unfolding has_prefix
has_suffix s t = has_prefix (reverse s) (reverse t)

-- strings.Contains, for a separator of one byte
unfoldable pub contains_byte : Text → ℕ → Bool
contains_byte [] b = false
contains_byte (a ∷ s) b = a == b || contains_byte s b

-- strings.Split at a separator of one byte: `cur` is the part being read.
unfoldable pub split_from : ℕ → Text → Text → List Text
split_from sep cur [] = cur ∷ []
split_from sep cur (c ∷ s) =
    let next = cur ∷ split_from sep [] s in
    let more = split_from sep (cur ++ c ∷ []) s in if c == sep then next else more

unfoldable pub split : Text → ℕ → List Text
unfolding split_from
split s sep = split_from sep [] s

-- strings.Split at a separator of any length: `skip` bytes of a separator are still to be passed.
unfoldable pub cut_from : Text → ℕ → Text → Text → List Text
cut_from sep skip cur [] = cur ∷ []
cut_from sep (suc skip) cur (c ∷ s) = cut_from sep skip cur s
cut_from sep zero cur (c ∷ s) =
    let next = cur ∷ cut_from sep (length sep - 1) [] s in
    let more = cut_from sep zero (cur ++ c ∷ []) s in if has_prefix (c ∷ s) sep then next else more

unfoldable pub split_at : Text → Text → List Text
unfolding cut_from has_prefix
split_at s sep = cut_from sep 0 [] s

-- The ASCII part of strings.TrimSpace.
abbrev pub is_space : ℕ → Bool
is_space c = c == 32 || c == 9 || c == 10 || c == 11 || c == 12 || c == 13

unfoldable pub trim_left : Text → Text
trim_left [] = []
trim_left (c ∷ s) = if is_space c then trim_left s else c ∷ s

unfoldable pub trim_space : Text → Text
unfolding trim_left
trim_space s = reverse (trim_left (reverse (trim_left s)))

-- strings.Join
unfoldable pub join : List Text → Text → Text
join [] sep = []
join (p ∷ []) sep = p
join (p ∷ q ∷ ps) sep = p ++ (sep ++ join (q ∷ ps) sep)
