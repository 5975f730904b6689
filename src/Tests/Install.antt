-- ===== src/Tests/Install.antt =====
-- The check of the tools on a machine that has them.
use pact_go.Common.{ℕ, bytes, Text, ok, none, List, [], ◌∷◌, ◌≡◌, ◌↔◌, refl, leb}
use mathlib.Core.List.Permᴰ.{swap}
use pact_go.Install.{
  version_map, mock_service_range, verifier_range, broker_range, Commander, check_entries,
}
use pact_go.Install.Ranges.{IsWithin, check_installation_iff}

-- A version is read as the number of its bytes, and a range is met by one of at most seven.
abbrev pub commander : Commander ℕ
commander = record {
  output = λ binary. (bytes "loading\n1.40.0\n", none);
  new_version = λ version. ok 6;
  satisfies = λ range version. leb version 7;
}

-- The map gone through in another order.
abbrev pub entries : List (Text × Text)
entries =
    (bytes "pact-provider-verifier", verifier_range)
    ∷ (bytes "pact-mock-service", mock_service_range)
    ∷ (bytes "pact-broker", broker_range)
    ∷ []

check_installation_iff_example : (check_entries commander entries ≡ none) ↔ (
    IsWithin commander (bytes "pact-mock-service") mock_service_range
    × IsWithin commander (bytes "pact-provider-verifier") verifier_range
    × IsWithin commander (bytes "pact-broker") broker_range)
unfolding version_map
check_installation_iff_example = check_installation_iff commander entries (swap refl refl)
