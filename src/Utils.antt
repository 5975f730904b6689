-- ===== src/Utils.antt =====
-- utils/port.go: the choice of a port for the mock server.
pub mod Decimal
pub mod Range
pub mod Wrapping
pub mod Listed
pub mod Listen
use pact_go.Common.{
  ℕ, zero, suc, ◌+◌, ◌-◌, ltb, leb, Text, bytes, contains_byte, split, trim_space, Error, Result,
  ok, err, Bool, true, false, not, Option, none, some, List, [], ◌∷◌, if◌then◌else◌,
}
use pact_go.Utils.Decimal.{atoi}

-- `check` is `checkPort`: whether `net` can listen on the port.
module _ (check : ℕ → Bool) where
  -- The loop over a list of ports.
  unfoldable pub find_listed : List Text → Result ℕ
  find_listed [] = err (bytes "all passed ports are unusable")
  find_listed (p ∷ ports) = elim (atoi p) [
    | err e ↦ err e
    | ok i ↦ let rest = find_listed ports in if check i then ok i else rest
  ]

  -- `for i := lower; i <= upper; i++`, where `rounds` are left. The index does not wrap, as that of the
  -- code does behind the largest int; Wrapping has the loop with an index that does.
  unfoldable pub find_between : ℕ → ℕ → Result ℕ
  find_between i zero = err (bytes "all passed ports are unusable")
  find_between i (suc rounds) =
      let rest = find_between (suc i) rounds in if check i then ok i else rest

  -- The two bounds of a range, read in their order.
  unfoldable pub find_bounds : Result ℕ → Result ℕ → Result ℕ
  find_bounds (err e) upper = err e
  find_bounds (ok lower) (err e) = err e
  find_bounds (ok lower) (ok upper) =
      if ltb upper lower
      then err (bytes "invalid range passed")
      else find_between lower (upper + 1 - lower)

  unfoldable pub find_range : List Text → Result ℕ
  find_range (lower ∷ upper ∷ []) = find_bounds (atoi lower) (atoi upper)
  find_range _ = err (bytes "invalid range passed")

  unfoldable pub find_port_in_range : Text → Result ℕ
  find_port_in_range s =
      if not (contains_byte s b'-')
      then find_listed (split (trim_space s) b',')
      else find_range (split (trim_space s) b'-')
