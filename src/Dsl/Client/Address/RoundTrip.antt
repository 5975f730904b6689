-- ===== src/Dsl/Client/Address/RoundTrip.antt =====
-- dsl/client.go: the port and the address of a URL that names both.
use pact_go.Common.{
  ℕ, zero, suc, ◌+◌, ◌/◌, ◌%◌, ◌≤◌, pos, Text, Result, ok, [], ◌∷◌, ◌++◌, ◌≡◌, arith, ap, ◌∙◌,
  Bool-cases, inl, inr, ◌==◌, split,
}
use pact_go.Common.Split.{LacksByte, split_once}
use pact_go.Utils.Decimal.{itoa, emit, atoi-itoa, max_int}
use pact_go.Dsl.Client.Address.{ParsedUrl, host_port, port_or, get_port, get_address}

emit-LacksByte : (fuel n : ℕ) (out : Text) → LacksByte b':' out → LacksByte b':' (emit fuel n out)
unfolding emit
emit-LacksByte zero n out h = h
emit-LacksByte (suc fuel) n out h = elim (Bool-cases (n == 0)) [
  | inl z ↦ rw z h
  | inr p ↦
      rw p
        (emit-LacksByte fuel (n / 10) ((b'0' + n % 10) ∷ out) ((λ e. absurd (omega (arith, e))), h))
]

itoa-LacksByte : (n : ℕ) → LacksByte b':' (itoa n)
unfolding itoa
itoa-LacksByte n = elim (Bool-cases (n == 0)) [
  | inl z ↦ rw z ((λ e. absurd (omega (arith, e))), tt)
  | inr p ↦
      rw p (emit-LacksByte n (n / 10) ((b'0' + n % 10) ∷ []) ((λ e. absurd (omega (arith, e))), tt))
]

-- The port and the address of a URL whose host is a name with no colon, a colon and a port in
-- decimal text are that port and that name.
pub get_port-itoa :
    (parse : Text → Result ParsedUrl) (raw_url name : Text) (u : ParsedUrl) (port : ℕ)
    → LacksByte b':' name
    → port ≤ max_int
    → parse raw_url ≡ ok u
    → u.host ≡ name ++ b':' ∷ itoa port
    → (get_port parse raw_url ≡ pos port) × (get_address parse raw_url ≡ name)
unfolding get_port get_address host_port port_or
get_port-itoa parse raw_url name u port plain fits parsed host =
    let parts =
      ap (λ h. split h b':') host ∙ split_once b':' name (itoa port) plain (itoa-LacksByte port) in
    (rw (parsed, get_port, parts, atoi-itoa port fits), rw (parsed, get_address, parts))
