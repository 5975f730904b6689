-- ===== src/Proxy/Slash.antt =====
-- `singleJoiningSlash` of proxy/http.go.
use mathlib.Core.List.{reverse, reverse-cons, concat-ne-nil}
use pact_go.Common.{
  ℕ, Text, has_prefix, has_suffix, Bool, true, false, ◌==◌, [], ◌∷◌, ◌++◌, append_assoc, ◌≡◌, ◌≢◌,
  refl, sym, ap, ◌∙◌, if◌then◌else◌, arith, inl, inr, Bool-cases,
}
use pact_go.Proxy.{tail, single_joining_slash}

-- A text without the slash at its end, and without the slash at its head, if there is one.
abbrev pub trim_last : Text → Text
trim_last [] = []
trim_last (c ∷ []) = if c == b'/' then [] else c ∷ []
trim_last (c ∷ d ∷ s) = c ∷ trim_last (d ∷ s)

abbrev pub trim_first : Text → Text
trim_first [] = []
trim_first (c ∷ s) = if c == b'/' then s else c ∷ s

has_prefix-append :
    (s t : Text) (b : ℕ) → s ≢ [] → has_prefix (s ++ t) (b ∷ []) ≡ has_prefix s (b ∷ [])
unfolding has_prefix
has_prefix-append [] t b h = absurd (h refl)
has_prefix-append (c ∷ s) t b h = refl

reverse-ne-nil : (c : ℕ) (s : Text) → reverse (c ∷ s) ≢ []
reverse-ne-nil c s e = concat-ne-nil c (reverse s) (sym (reverse-cons c s) ∙ e)

-- Only the last byte counts.
has_suffix-cons :
    (c d : ℕ) (s : Text) (b : ℕ) → has_suffix (c ∷ d ∷ s) (b ∷ []) ≡ has_suffix (d ∷ s) (b ∷ [])
unfolding has_suffix
has_suffix-cons c d s b =
    rw (reverse-cons c (d ∷ s))
      (has_prefix-append (reverse (d ∷ s)) (c ∷ []) b (reverse-ne-nil d s))

-- A text with a slash at its end is its trimmed form and a slash; any other is its trimmed form.
trim_last_lem :
    (a : Text) → a ≡ (if has_suffix a (b'/' ∷ []) then trim_last a ++ b'/' ∷ [] else trim_last a)
trim_last_lem [] = unfold has_suffix has_prefix in refl
trim_last_lem (c ∷ []) = unfold has_suffix has_prefix in ground arith
trim_last_lem (c ∷ d ∷ s) = rw has_suffix-cons (ground (arith, trim_last_lem (d ∷ s)))

ends_in_slash : (a : Text) → has_suffix a (b'/' ∷ []) ≡ true → trim_last a ++ b'/' ∷ [] ≡ a
ends_in_slash a p = sym (rw p at (trim_last_lem a))

ends_otherwise : (a : Text) → has_suffix a (b'/' ∷ []) ≡ false → trim_last a ≡ a
ends_otherwise a p = sym (rw p at (trim_last_lem a))

-- The two texts behind the head path, for a head path with a slash at its end and for any other.
after_slash : (b : Text) → (if has_prefix b (b'/' ∷ []) then tail b else b) ≡ trim_first b
after_slash [] = unfold has_prefix in refl
after_slash (c ∷ s) = unfold has_prefix in ground arith

after_other : (b : Text) → (if has_prefix b (b'/' ∷ []) then b else b'/' ∷ b) ≡ b'/' ∷ trim_first b
after_other [] = unfold has_prefix in refl
after_other (c ∷ s) = unfold has_prefix in ground arith

append-if : (a s t : Text) (b : Bool) → (if b then a ++ s else a ++ t) ≡ a ++ (if b then s else t)
append-if a s t true = refl
append-if a s t false = refl

-- Whatever slashes stand at the end of the one path and at the head of the other, the joined path
-- has one slash between what is left of them when a slash at that place is taken off.
pub single_joining_slash-trim :
    (a b : Text) → single_joining_slash a b ≡ trim_last a ++ b'/' ∷ trim_first b
unfolding single_joining_slash
single_joining_slash-trim a b = elim (Bool-cases (has_suffix a (b'/' ∷ []))) [
  | inl p ↦ rw p (
      append-if a _ _ (has_prefix b (b'/' ∷ []))
      ∙ ap (λ t. a ++ t) (after_slash b)
      ∙ ap (λ t. t ++ trim_first b) (sym (ends_in_slash a p))
      ∙ append_assoc (trim_last a) (b'/' ∷ []) (trim_first b))
  | inr p ↦
      rw (p, ends_otherwise a p)
        (append-if a _ _ (has_prefix b (b'/' ∷ [])) ∙ ap (λ t. a ++ t) (after_other b))
]
