-- ===== src/Install.antt =====
-- install/installer.go: the check of the versions of the CLI tools. Running a tool and the versions
-- of `hashicorp/go-version` are parameters.
pub mod LastLine
pub mod Ranges
use pact_go.Common.{
  ℕ, Text, bytes, text_eq, split, trim_space, Error, Result, ok, err, Bool, Option, none, some,
  List, [], ◌∷◌, ◌++◌, if◌then◌else◌,
}

abbrev pub mock_service_range : Text
mock_service_range = bytes ">= 3.5.0, < 4.0.0"

abbrev pub verifier_range : Text
verifier_range = bytes ">= 1.31.0, < 2.0.0"

abbrev pub broker_range : Text
broker_range = bytes ">= 1.22.3"

-- The entries of the map, of which the loop takes an order of its own.
unfoldable pub version_map : List (Text × Text)
version_map =
    (bytes "pact-mock-service", mock_service_range)
    ∷ (bytes "pact-provider-verifier", verifier_range)
    ∷ (bytes "pact-broker", broker_range)
    ∷ []

-- `versionRange, ok := versionMap[binary]`
unfoldable pub range_of : Text → List (Text × Text) → Option Text
range_of binary [] = none
range_of binary ((b, range) ∷ m) = if text_eq b binary then some range else range_of binary m

abbrev pub last : List Text → Text
last [] = []
last (e ∷ []) = e
last (e ∷ f ∷ es) = last (f ∷ es)

-- `output` is the commander: what `BINARY version` prints. `satisfies` is `Check` of the constraints
-- of a text, all of which the library accepts.
pub record Commander (Version : Type 0) : Type 0 where
  pub output : Text → Text × Option Error
  pub new_version : Text → Result Version
  pub satisfies : Text → Version → Bool

module _ {Version : Type 0} (commander : Commander Version) where
  unfoldable pub get_version_for_binary : Text → Text × Option Error
  get_version_for_binary binary =
      let (content, e) = commander.output binary in
      (trim_space (last (split (trim_space content) 10)), e)

  -- `CheckVersion` behind the parsing of the version.
  unfoldable pub check_range : Text → Text → Version → Option Text → Option Error
  check_range binary version v none =
      some (bytes "unable to find version range for binary " ++ binary)
  check_range binary version v (some range) =
      if commander.satisfies range v
      then none
      else some (
          bytes "version "
          ++ version
          ++ bytes " of "
          ++ binary
          ++ bytes " does not match constraint "
          ++ range)

  unfoldable pub check_parsed : Text → Text → Result Version → Option Error
  check_parsed binary version (err e) = some e
  check_parsed binary version (ok v) = check_range binary version v (range_of binary version_map)

  unfoldable pub check_version : Text → Text → Option Error
  check_version binary version = check_parsed binary version (commander.new_version version)

  -- One round of `CheckInstallation`.
  unfoldable pub check_binary : Text → Text × Option Error → Option Error
  check_binary binary (version, some e) = some e
  check_binary binary (version, none) = check_version binary version

  unfoldable pub check_entries : List (Text × Text) → Option Error
  check_entries [] = none
  check_entries ((binary, range) ∷ entries) =
      elim (check_binary binary (get_version_for_binary binary)) [
        | some e ↦ some e
        | none ↦ check_entries entries
      ]
