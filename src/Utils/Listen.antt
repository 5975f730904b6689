-- ===== src/Utils/Listen.antt =====
-- utils/port.go: `GetFreePort` and `checkPort`, and what the search gives with the latter.
use pact_go.Common.{
  ℕ, zero, suc, ◌+◌, ◌≤◌, ltb, Text, bytes, Error, Result, ok, err, Bool, true, false, not, Option,
  none, some, List, [], ◌∷◌, ◌++◌, ◌≡◌, refl, arith, contains_byte, split, trim_space, inl, inr,
  Bool-cases, Result-cases, ◌==◌, ◌-◌,
}
use pact_go.Utils.{find_listed, find_between, find_bounds, find_range, find_port_in_range}
use pact_go.Utils.Decimal.{atoi, itoa, digits, unsigned, in_int, max_int}

-- `net.ResolveTCPAddr`, and the port of the listener that `net.ListenTCP` gives, which is closed again.
pub record Net (Address : Type 0) : Type 0 where
  pub resolve : Text → Result Address
  pub listen : Address → Result ℕ

abbrev pub is_none : {A : Type 0} → Option A → Bool
is_none none = true
is_none (some a) = false

module _ {Address : Type 0} (net : Net Address) where
  unfoldable pub get_free_port : Result ℕ
  get_free_port = elim (net.resolve (bytes "localhost:0")) [
    | err e ↦ err e
    | ok address ↦ net.listen address
  ]

  unfoldable pub check_port : ℕ → Option Error
  check_port p = elim (net.resolve (bytes "localhost:" ++ itoa p)) [
    | err e ↦ some e
    | ok address ↦ elim (net.listen address) [ err e ↦ some e | ok port ↦ none ]
  ]

  unfoldable pub usable_on : ℕ → Bool
  usable_on p = is_none (check_port p)

  -- The port's address is known and can be listened on.
  pub record IsFree (port : ℕ) : Type 0 where
    pub address : Address
    pub known : net.resolve (bytes "localhost:" ++ itoa port) ≡ ok address
    pub listener : ℕ
    pub heard : net.listen address ≡ ok listener

  usable_on-IsFree : (p : ℕ) → usable_on p ≡ true → IsFree p
  unfolding usable_on check_port
  usable_on-IsFree p h = elim (Result-cases (net.resolve (bytes "localhost:" ++ itoa p))) [
    | inl (e, q) ↦ absurd (cc (rw (q, check_port) at h))
    | inr (address, q) ↦ elim (Result-cases (net.listen address)) [
      | inl (e, r) ↦ absurd (cc (rw (q, check_port, r) at h))
      | inr (port, r) ↦ record { address = address; known = q; listener = port; heard = r }
    ]
  ]

ok_inj : (i p : ℕ) → ok i ≡ ok p → i ≡ p
ok_inj i p h = cc

in_int-le : (n : Option ℕ) (p : ℕ) → in_int n ≡ ok p → p ≤ max_int
unfolding in_int
in_int-le none p h = absurd (cc)
in_int-le (some n) p h = ground arith

atoi-le-max_int : (s : Text) (p : ℕ) → atoi s ≡ ok p → p ≤ max_int
unfolding atoi
atoi-le-max_int [] p h = in_int-le none p h
atoi-le-max_int (c ∷ s) p h = elim (Bool-cases (c == b'+')) [
  | inl plus ↦ in_int-le (unsigned s) p (rw plus at h)
  | inr digit ↦ in_int-le (digits 0 (c ∷ s)) p (rw digit at h)
]

module _ (check : ℕ → Bool) where
  find_listed-bounds :
      (ports : List Text) (p : ℕ)
      → find_listed check ports ≡ ok p
      → (check p ≡ true) × (p ≤ max_int)
  unfolding find_listed
  find_listed-bounds [] p h = absurd (cc)
  find_listed-bounds (s ∷ ports) p h = elim (Result-cases (atoi s)) [
    | inl (e, q) ↦ absurd (cc (rw (q, find_listed) at h))
    | inr (i, q) ↦ elim (Bool-cases (check i)) [
      | inl usable ↦
          let same = ok_inj i p (rw (q, find_listed, usable) at h) in
          rw (← same) (usable, atoi-le-max_int s i q)
      | inr busy ↦ find_listed-bounds ports p (rw (q, find_listed, busy) at h)
    ]
  ]

  find_between-bounds :
      (i rounds upper p : ℕ)
      → i + rounds ≡ upper + 1
      → find_between check i rounds ≡ ok p
      → (check p ≡ true) × (p ≤ upper)
  unfolding find_between
  find_between-bounds i zero upper p e h = absurd (cc)
  find_between-bounds i (suc rounds) upper p e h = elim (Bool-cases (check i)) [
    | inl usable ↦ let same = ok_inj i p (rw usable at h) in rw (← same) (usable, omega arith)
    | inr busy ↦ find_between-bounds (suc i) rounds upper p (omega arith) (rw busy at h)
  ]

  find_bounds_bounds :
      (lower upper : Result ℕ) (p : ℕ)
      → ((u : ℕ) → upper ≡ ok u → u ≤ max_int)
      → find_bounds check lower upper ≡ ok p
      → (check p ≡ true) × (p ≤ max_int)
  unfolding find_bounds
  find_bounds_bounds (err e) upper p fits h = absurd (cc)
  find_bounds_bounds (ok lower) (err e) p fits h = absurd (cc)
  find_bounds_bounds (ok lower) (ok upper) p fits h = elim (Bool-cases (ltb upper lower)) [
    | inl crossed ↦ absurd (cc (rw crossed at h))
    | inr ordered ↦
        let rounds : lower + (upper + 1 - lower) ≡ upper + 1 = ground arith in
        let (usable, le) =
          find_between-bounds lower (upper + 1 - lower) upper p rounds (rw ordered at h) in
        (usable, omega (arith, fits upper refl))
  ]

  find_range-bounds :
      (parts : List Text) (p : ℕ) → find_range check parts ≡ ok p → (check p ≡ true) × (p ≤ max_int)
  unfolding find_range
  find_range-bounds [] p h = absurd (cc)
  find_range-bounds (lower ∷ []) p h = absurd (cc)
  find_range-bounds (lower ∷ upper ∷ []) p h =
      find_bounds_bounds (atoi lower) (atoi upper) p (atoi-le-max_int upper) h
  find_range-bounds (lower ∷ upper ∷ part ∷ parts) p h = absurd (cc)

  -- A port that is given for any text is usable, and an int.
  find_port_in_range-bounds :
      (s : Text) (p : ℕ) → find_port_in_range check s ≡ ok p → (check p ≡ true) × (p ≤ max_int)
  unfolding find_port_in_range
  find_port_in_range-bounds s p h = elim (Bool-cases (contains_byte s b'-')) [
    | inl dash ↦ find_range-bounds (split (trim_space s) b'-') p (rw (dash, not) at h)
    | inr plain ↦ find_listed-bounds (split (trim_space s) b',') p (rw (plain, not) at h)
  ]

-- Whatever the text, a port that `FindPortInRange` gives is one that `checkPort` could listen on, and
-- is at most the largest int.
pub find_port_in_range-IsFree :
    {Address : Type 0} (net : Net Address) (s : Text) (port : ℕ)
    → find_port_in_range (usable_on net) s ≡ ok port
    → IsFree net port × (port ≤ max_int)
find_port_in_range-IsFree net s port h =
    let (usable, le) = find_port_in_range-bounds (usable_on net) s port h in
    (usable_on-IsFree net port usable, le)
