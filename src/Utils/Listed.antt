-- ===== src/Utils/Listed.antt =====
-- The port that `FindPortInRange` of utils/port.go gives for a list of ports.
use pact_go.Common.{
  ℕ, Text, contains_byte, split, trim_space, ok, Bool, true, false, not, List, [], ◌∷◌, ◌≡◌, ◌↔◌,
  inl, inr, Result-cases, Bool-cases,
}
use pact_go.Utils.Decimal.{atoi}
use pact_go.Utils.{find_listed, find_port_in_range}

module _ (check : ℕ → Bool) where
  -- The first entry whose port is usable; every entry before it is a number.
  pub data IsFirstOf (port : ℕ) : List Text → Type 0 where
    here :
        {p : Text} {ports : List Text}
        → atoi p ≡ ok port
        → check port ≡ true
        → IsFirstOf port (p ∷ ports)
    later :
        {p : Text} {ports : List Text} {i : ℕ}
        → atoi p ≡ ok i
        → check i ≡ false
        → IsFirstOf port ports
        → IsFirstOf port (p ∷ ports)

  listed_first :
      (port : ℕ) (ports : List Text) → find_listed check ports ≡ ok port → IsFirstOf port ports
  unfolding find_listed
  listed_first port [] e = absurd (cc)
  listed_first port (p ∷ ports) e = elim (Result-cases (atoi p)) [
    | inl (x, q) ↦ absurd (cc (rw (q, find_listed) at e))
    | inr (i, q) ↦ elim (Bool-cases (check i)) [
      | inl usable ↦
          let same : i ≡ port = cc (rw (q, usable, find_listed) at e) in
          here (rw (← same) q) (rw (← same) usable)
      | inr busy ↦ later q busy (listed_first port ports (rw (q, busy, find_listed) at e))
    ]
  ]

  first_listed :
      (port : ℕ) {ports : List Text} → IsFirstOf port ports → find_listed check ports ≡ ok port
  unfolding find_listed
  first_listed port (here p usable) = rw (p, usable, find_listed)
  first_listed port (later p busy f) = rw (p, busy, find_listed) (first_listed port f)

  -- For a text with no dash, `FindPortInRange` gives a port exactly if it is the first usable one of
  -- the entries between commas, where every entry before it is a number.
  pub find_port_in_range-IsFirstOf :
      (s : Text) (port : ℕ)
      → contains_byte s b'-' ≡ false
      → (find_port_in_range check s ≡ ok port) ↔ IsFirstOf port (split (trim_space s) b',')
  unfolding find_port_in_range
  find_port_in_range-IsFirstOf s port plain =
      rw (plain, not) (listed_first port (split (trim_space s) b','), first_listed port)
