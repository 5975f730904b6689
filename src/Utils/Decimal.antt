-- ===== src/Utils/Decimal.antt =====
-- `strconv.Atoi` on a text without a minus sign, as utils/port.go and dsl/client.go call it: an
-- optional plus sign and one or more digits, of a value below 2^63.
use Prim.Native.Nat.{◌≤◌}
use pact_go.Common.{
  ℕ, zero, suc, ◌<◌, ◌+◌, ◌-◌, ◌*◌, ◌/◌, ◌%◌, ◌^◌, refl, sym, ap, ◌∙◌, inl, inr, Bool-cases, ltb,
  Text, bytes, Result, ok, err, false, ◌||◌, Option, none, some, [], ◌∷◌, ◌≡◌, ◌==◌, if◌then◌else◌,
  arith,
}

abbrev pub max_int : ℕ
max_int = 2 ^ 63 - 1

-- The value of the digits behind `n`.
unfoldable pub digits : ℕ → Text → Option ℕ
digits n [] = some n
digits n (c ∷ s) =
    let rest = digits (n * 10 + (c - b'0')) s in if ltb c b'0' || ltb b'9' c then none else rest

unfoldable pub unsigned : Text → Option ℕ
unsigned [] = none
unsigned (c ∷ s) = digits 0 (c ∷ s)

unfoldable pub in_int : Option ℕ → Result ℕ
in_int none = err (bytes "invalid syntax")
in_int (some n) = if ltb max_int n then err (bytes "value out of range") else ok n

unfoldable pub atoi : Text → Result ℕ
unfolding digits unsigned in_int
atoi [] = in_int none
atoi (c ∷ s) = if c == b'+' then in_int (unsigned s) else in_int (digits 0 (c ∷ s))

-- The decimal digits of `n` before `out`; a number below the fuel has enough of it.
unfoldable pub emit : ℕ → ℕ → Text → Text
emit zero n out = out
emit (suc fuel) n out =
    let rest = emit fuel (n / 10) ((b'0' + n % 10) ∷ out) in if n == 0 then out else rest

-- `strconv.Itoa`, and `%d` of `fmt.Sprintf`, on a number that is not negative.
unfoldable pub itoa : ℕ → Text
unfolding emit
itoa n = if n == 0 then b'0' ∷ [] else emit (suc n) n []

digits_last : (n : ℕ) (out : Text) → digits (n / 10) ((b'0' + n % 10) ∷ out) ≡ digits n out
unfolding digits
digits_last n out = ground arith

digits-emit : (fuel n : ℕ) (out : Text) → n < fuel → digits 0 (emit fuel n out) ≡ digits n out
unfolding emit
digits-emit zero n out h = absurd (omega arith)
digits-emit (suc fuel) n out h =
    ground (arith, digits-emit fuel (n / 10) ((b'0' + n % 10) ∷ out), digits_last n out)

-- The digits of a number begin with a digit.
emit_head :
    (fuel n : ℕ) (c : ℕ) (out : Text)
    → b'0' ≤ c
    → (d : ℕ) × (s : Text) × (emit fuel n (c ∷ out) ≡ d ∷ s) × (b'0' ≤ d)
unfolding emit
emit_head zero n c out h = (c, out, refl, h)
emit_head (suc fuel) n c out h = elim (Bool-cases (n == 0)) [
  | inl z ↦ (c, out, rw z, h)
  | inr p ↦
      let (d, s, e, k) = emit_head fuel (n / 10) (b'0' + n % 10) (c ∷ out) (omega arith) in
      (d, s, rw p e, k)
]

atoi-digits : (d : ℕ) (s : Text) → b'0' ≤ d → atoi (d ∷ s) ≡ in_int (digits 0 (d ∷ s))
unfolding atoi
atoi-digits d s h = ground arith

in_int-some : (n : ℕ) → n ≤ max_int → in_int (some n) ≡ ok n
unfolding in_int
in_int-some n fits = ground arith

atoi-emit :
    (fuel n c : ℕ) (out : Text)
    → b'0' ≤ c
    → atoi (emit fuel n (c ∷ out)) ≡ in_int (digits 0 (emit fuel n (c ∷ out)))
atoi-emit fuel n c out h = let (d, s, e, k) = emit_head fuel n c out h in rw e (atoi-digits d s k)

emit_pos : (n : ℕ) → (n == 0) ≡ false → emit (suc n) n [] ≡ emit n (n / 10) ((b'0' + n % 10) ∷ [])
unfolding emit
emit_pos n p = rw p

digits-nil : (n : ℕ) → digits n [] ≡ some n
unfolding digits
digits-nil n = refl

-- A number that is an `int` is read back from its decimal text.
pub atoi-itoa : (n : ℕ) → n ≤ max_int → atoi (itoa n) ≡ ok n
unfolding itoa
atoi-itoa n fits = elim (Bool-cases (n == 0)) [
  | inl z ↦ let e : n ≡ 0 = ground arith in rw e (unfold atoi in refl)
  | inr p ↦ rw p (
      atoi-emit n (n / 10) (b'0' + n % 10) [] (omega arith)
      ∙ ap in_int (
          ap (digits 0) (sym (emit_pos n p))
          ∙ digits-emit (suc n) n [] (omega arith)
          ∙ digits-nil n)
      ∙ in_int-some n fits)
]
