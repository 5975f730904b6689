-- ===== src/Utils/Range.antt =====
-- The port that `FindPortInRange` of utils/port.go gives.
use Prim.Native.Nat.{◌≤◌, ◌<◌}
use native.Mathlib.Decide.{ℕ_discrete}
use pact_go.Common.{
  ℕ, zero, suc, ◌+◌, ◌-◌, ltb, Text, contains_byte, split, trim_space, Result, ok, err, Bool, true,
  false, not, [], ◌∷◌, ◌≡◌, arith, inl, inr, Bool-cases,
}
use pact_go.Utils.Decimal.{atoi, max_int}
use pact_go.Utils.{find_between, find_bounds, find_range, find_port_in_range}

ltb-false : (a b : ℕ) → b ≤ a → ltb a b ≡ false
ltb-false a b h = ground arith

module _ (check : ℕ → Bool) where
  -- The first usable port of a range, and that no port of a range is usable.
  pub record IsFirst (lower upper port : ℕ) : Type 0 where
    pub above : lower ≤ port
    pub below : port ≤ upper
    pub usable : check port ≡ true
    pub first : (i : ℕ) → lower ≤ i → i < port → check i ≡ false

  abbrev pub NoneUsable : ℕ → ℕ → Type 0
  NoneUsable lower upper = (i : ℕ) → lower ≤ i → i ≤ upper → check i ≡ false

  abbrev pub Searched : ℕ → ℕ → Result ℕ → Type 0
  Searched lower upper (ok port) = IsFirst lower upper port
  Searched lower upper (err e) = NoneUsable lower upper

  Searched-ok :
      (i rounds upper : ℕ) → i + suc rounds ≡ upper + 1 → check i ≡ true → IsFirst i upper i
  Searched-ok i rounds upper e usable = record {
    above = omega arith;
    below = omega arith;
    usable = usable;
    first = λ j h k. absurd (omega arith);
  }

  -- A port that is refused is passed over.
  Searched-suc :
      (i upper : ℕ) (r : Result ℕ) → check i ≡ false → Searched (suc i) upper r → Searched i upper r
  Searched-suc i upper (ok port) busy f = record {
    above = omega (arith, f.above);
    below = f.below;
    usable = f.usable;
    first = λ j h k. elim (ℕ_discrete i j) [
      | yes same ↦ rw (← same) busy
      | no differs ↦ f.first j (omega arith) k
    ];
  }
  Searched-suc i upper (err e) busy f = λ j h k. elim (ℕ_discrete i j) [
    | yes same ↦ rw (← same) busy
    | no differs ↦ f j (omega arith) k
  ]

  find_between-Searched :
      (i rounds upper : ℕ) → i + rounds ≡ upper + 1 → Searched i upper (find_between check i rounds)
  unfolding find_between
  find_between-Searched i zero upper e = λ j h k. absurd (omega arith)
  find_between-Searched i (suc rounds) upper e = elim (Bool-cases (check i)) [
    | inl usable ↦ rw usable (Searched-ok i rounds upper e usable)
    | inr busy ↦ rw busy (
        Searched-suc i upper (find_between check (suc i) rounds) busy
          (find_between-Searched (suc i) rounds upper (omega arith)))
  ]

  -- For a text that is two numbers, in order, joined by a dash, the second below the largest int,
  -- `FindPortInRange` gives the first usable port from the one number to the other, both included; it
  -- fails exactly if none is usable.
  pub find_port_in_range-Searched :
      (s lo hi : Text) (lower upper : ℕ)
      → contains_byte s b'-' ≡ true
      → split (trim_space s) b'-' ≡ lo ∷ hi ∷ []
      → atoi lo ≡ ok lower
      → atoi hi ≡ ok upper
      → lower ≤ upper
      → upper < max_int
      → Searched lower upper (find_port_in_range check s)
  unfolding find_port_in_range find_range find_bounds
  find_port_in_range-Searched s lo hi lower upper dash parts p q le bounded =
      rw (dash, not, parts, p, q, ltb-false upper lower le)
        (find_between-Searched lower (upper + 1 - lower) upper (omega arith))
