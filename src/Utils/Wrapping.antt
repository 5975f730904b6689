-- ===== src/Utils/Wrapping.antt =====
-- utils/port.go: the loop of `FindPortInRange` over a range, with its index as the 64-bit int that it
-- is, which wraps. `check` is `checkPort` on an int.
use Prim.Native.Nat.{◌≤◌, ◌<◌}
use pact_go.Common.{
  ℕ, zero, suc, ◌+◌, ◌-◌, ◌==◌, leb, ℤ, pos, negsuc, bytes, Result, ok, err, Bool, true, false,
  Option, none, some, ◌≡◌, ◌⊎◌, ◌↔◌, refl, arith, if◌then◌else◌, inl, inr, Bool-cases,
}
use native.Mathlib.Decide.{dec_lt}
use pact_go.Utils.{find_between}
use pact_go.Utils.Decimal.{max_int}

-- `i++` on an int of 64 bits.
unfoldable pub next_int : ℤ → ℤ
next_int (pos n) = if n == max_int then negsuc max_int else pos (suc n)
next_int (negsuc zero) = pos 0
next_int (negsuc (suc n)) = negsuc n

-- `i <= upper`, where the upper bound is not negative.
abbrev pub at_most : ℤ → ℕ → Bool
at_most (pos n) upper = leb n upper
at_most (negsuc n) upper = true

abbrev pub IsInt : ℤ → Type 0
IsInt (pos n) = n ≤ max_int
IsInt (negsuc n) = n ≤ max_int

module _ (check : ℤ → Bool) where
  -- `for i := lower; i <= upper; i++`, for so many tests of the index; nothing is given if the loop
  -- goes on.
  unfoldable pub search_between : ℕ → ℤ → ℕ → Option (Result ℤ)
  search_between zero i upper = none
  search_between (suc fuel) i upper =
      let rest = search_between fuel (next_int i) upper in
      if at_most i upper
      then (if check i then some (ok i) else rest)
      else some (err (bytes "all passed ports are unusable"))

abbrev pub as_int : Result ℕ → Result ℤ
as_int (ok port) = ok (pos port)
as_int (err e) = err e

next_int-pos : (n : ℕ) → n < max_int → next_int (pos n) ≡ pos (suc n)
unfolding next_int
next_int-pos n h = ground arith

next_int-IsInt : (i : ℤ) → IsInt i → IsInt (next_int i)
unfolding next_int
next_int-IsInt (pos n) h = ground arith
next_int-IsInt (negsuc zero) h = omega arith
next_int-IsInt (negsuc (suc n)) h = omega arith

at_most-max_int : (i : ℤ) → IsInt i → at_most i max_int ≡ true
at_most-max_int (pos n) h = ground arith
at_most-max_int (negsuc n) h = refl

module _ (check : ℤ → Bool) where
  -- Below the largest int the loop does not wrap, and ends.
  search_between-find :
      (rounds fuel i upper : ℕ)
      → i + rounds ≡ upper + 1
      → upper < max_int
      → rounds < fuel
      → search_between check fuel (pos i) upper
        ≡ some (as_int (find_between (λ n. check (pos n)) i rounds))
  unfolding search_between find_between
  search_between-find rounds zero i upper e h f = absurd (omega arith)
  search_between-find zero (suc fuel) i upper e h f =
      let past : leb i upper ≡ false = ground arith in rw past
  search_between-find (suc rounds) (suc fuel) i upper e h f =
      let within : leb i upper ≡ true = ground arith in
      rw within (elim (Bool-cases (check (pos i))) [
        | inl usable ↦ rw usable
        | inr busy ↦ rw busy (
            rw (next_int-pos i (omega arith))
              (search_between-find rounds fuel (suc i) upper (omega arith) h (omega arith)))
      ])

-- Some number of `i++` takes the one int to the other.
data Climbs : ℤ → ℤ → Type 0 where
  here : {i : ℤ} → Climbs i i
  next : {i j : ℤ} → Climbs (next_int i) j → Climbs i j

Climbs-trans : {i j k : ℤ} → Climbs i j → Climbs j k → Climbs i k
Climbs-trans here d = d
Climbs-trans (next c) d = next (Climbs-trans c d)

climb_pos : (k a : ℕ) → a + k ≤ max_int → Climbs (pos a) (pos (a + k))
climb_pos zero a h = let e : a + 0 ≡ a = omega arith in rw e here
climb_pos (suc k) a h =
    let e : a + suc k ≡ suc a + k = omega arith in
    next (rw (next_int-pos a (omega arith), e) (climb_pos k (suc a) (omega arith)))

climb_negsuc : (k b : ℕ) → Climbs (negsuc (k + b)) (negsuc b)
unfolding next_int
climb_negsuc zero b = let e : 0 + b ≡ b = omega arith in rw e here
climb_negsuc (suc k) b =
    let e : suc k + b ≡ suc (k + b) = omega arith in rw e (next (climb_negsuc k b))

climb_zero : Climbs (negsuc 0) (pos 0)
unfolding next_int
climb_zero = next here

wrap_around : Climbs (pos max_int) (negsuc max_int)
unfolding next_int
wrap_around = next here

climb_to_negsuc : (n : ℕ) → n ≤ max_int → Climbs (negsuc max_int) (negsuc n)
climb_to_negsuc n h =
    let e : max_int - n + n ≡ max_int = omega arith in rw e at (climb_negsuc (max_int - n) n)

climb_to_pos : (n : ℕ) → n ≤ max_int → Climbs (negsuc max_int) (pos n)
climb_to_pos n h =
    let e : 0 + n ≡ n = omega arith in
    Climbs-trans (climb_to_negsuc 0 (omega arith))
      (Climbs-trans climb_zero (rw e at (climb_pos n 0 (omega arith))))

climb_from_least : (i : ℤ) → IsInt i → Climbs (negsuc max_int) i
climb_from_least (negsuc n) h = climb_to_negsuc n h
climb_from_least (pos n) h = climb_to_pos n h

-- Every int is reached from every port, behind the largest int if need be.
climb_to : (n : ℕ) (i : ℤ) → n ≤ max_int → IsInt i → Climbs (pos n) i
climb_to n i h k =
    let e : n + (max_int - n) ≡ max_int = omega arith in
    Climbs-trans (rw e at (climb_pos (max_int - n) n (omega arith)))
      (Climbs-trans wrap_around (climb_from_least i k))

module _ (check : ℤ → Bool) where
  -- The loop ends, by a port or an error.
  abbrev pub Ends : ℤ → ℕ → Type 0
  Ends i upper = (fuel : ℕ) × (r : Result ℤ) × (search_between check fuel i upper ≡ some r)

  abbrev pub SomeUsable : Type 0
  SomeUsable = (i : ℤ) × IsInt i × (check i ≡ true)

  climbs_end : {i j : ℤ} → Climbs i j → IsInt i → check j ≡ true → Ends i max_int
  unfolding search_between
  climbs_end (here {i}) h found = (1, ok i, rw (at_most-max_int i h, found))
  climbs_end (next {i} c) h found = elim (Bool-cases (check i)) [
    | inl usable ↦ (1, ok i, rw (at_most-max_int i h, usable))
    | inr busy ↦
        let (fuel, r, e) = climbs_end c (next_int-IsInt i h) found in
        (suc fuel, r, rw (at_most-max_int i h, busy) e)
  ]

  -- Up to the largest int the test of the index never fails.
  ended_usable :
      (fuel : ℕ) (i : ℤ) (r : Result ℤ)
      → IsInt i
      → search_between check fuel i max_int ≡ some r
      → SomeUsable
  unfolding search_between
  ended_usable zero i r h e = absurd (cc)
  ended_usable (suc fuel) i r h e = elim (Bool-cases (check i)) [
    | inl usable ↦ (i, h, usable)
    | inr busy ↦
        ended_usable fuel (next_int i) r (next_int-IsInt i h) (rw (at_most-max_int i h, busy) at e)
  ]

  ends_below : (lower upper : ℕ) → lower ≤ upper → upper < max_int → Ends (pos lower) upper
  ends_below lower upper le below = (
    upper + 2 - lower,
    as_int (find_between (λ n. check (pos n)) lower (upper + 1 - lower)),
    search_between-find check (upper + 1 - lower) (upper + 2 - lower) lower upper (omega arith)
        below (omega arith),
  )

  -- The loop over a range of ports, whose index is an int that wraps, ends exactly if the upper end
  -- of the range is below the largest int, or some int of all is usable as a port.
  pub search_between_ends_iff :
      (lower upper : ℕ)
      → lower ≤ upper
      → upper ≤ max_int
      → Ends (pos lower) upper ↔ ((upper < max_int) ⊎ SomeUsable)
  search_between_ends_iff lower upper le fits = (
    λ (fuel, r, e). elim (dec_lt upper max_int) [
      | yes below ↦ inl below
      | no last ↦
          let same : upper ≡ max_int = omega arith in
          inr (ended_usable fuel (pos lower) r (omega arith) (rw same at e))
    ],
    λ ended. elim ended [
      | inl below ↦ ends_below lower upper le below
      | inr (i, h, usable) ↦ elim (dec_lt upper max_int) [
        | yes below ↦ ends_below lower upper le below
        | no last ↦
            let same : upper ≡ max_int = omega arith in
            rw same (climbs_end (climb_to lower i (omega arith) h) (omega arith) usable)
      ]
    ],
  )
