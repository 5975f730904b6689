-- ===== src/Command.antt =====
-- command/: the program pact-go. Its flags are read by cobra, which is a parameter by its results.
use pact_go.Common.{
  ℕ, Text, bytes, Error, Bool, true, false, Option, none, some, List, [], ◌++◌, ◌≡◌, refl, ◌↔◌,
}
use mathlib.Core.List.{Permᴰ}
use pact_go.Install.{
  Commander, check_entries, version_map, mock_service_range, verifier_range, broker_range,
}
use pact_go.Install.Ranges.{IsWithin, check_installation_iff}

-- Where the log goes: to stderr behind a filter that has a least level, or nowhere.
pub data LogOutput : Type 0 where
  filtered : Text → LogOutput
  discarded : LogOutput

unfoldable pub set_log_level : Bool → Text → LogOutput
set_log_level true level = filtered level
set_log_level false level = discarded

-- How a command ends: with an exit code that is not 0, or by a return.
abbrev pub Exit : Type 0
Exit = Option ℕ

unfoldable pub exit_on_error : ℕ → Option Error → Exit
exit_on_error code none = none
exit_on_error code (some e) = some code

-- The `Run` of the `install` command.
unfoldable pub install :
    {Version : Type 0} → Commander Version → List (Text × Text) → Bool → Text → LogOutput × Exit
install commander entries verbose level =
    (set_log_level verbose level, exit_on_error 1 (check_entries commander entries))

-- `Execute`, where `e` is the error of the root command: what it prints, and the exit code of -1.
unfoldable pub execute : Option Error → Text × Exit
execute none = ([], none)
execute (some e) = (e ++ bytes "\n", exit_on_error 255 (some e))

-- A `cobra.Command`, without its `Run`.
pub record CobraCommand : Type 0 where
  pub use_line : Text
  pub short : Text
  pub long : Text

unfoldable pub root_cmd : CobraCommand
root_cmd = record {
  use_line = bytes "pact-go";
  short = bytes "Pact Go makes it easier to work with Pact with Golang projects";
  long =
      bytes
        "Pact Go is a utility that wraps a number of external applications into\nan idiomatic Golang interface and CLI, providing a mock service and DSL for\nthe consumer project, and interaction playback and verification for the\nservice provider project.";
}

unfoldable pub install_cmd : CobraCommand
install_cmd = record {
  use_line = bytes "install";
  short = bytes "Check required tools";
  long = bytes "Checks versions of required Pact CLI tools for used by the library";
}

unfoldable pub version_cmd : CobraCommand
version_cmd = record {
  use_line = bytes "version";
  short = bytes "Print the version number of Pact Go";
  long = bytes "All software has versions. This is Pact Go's";
}

-- The variables that the flags set, at the defaults that `init` gives them.
pub record Flags : Type 0 where
  pub verbose : Bool
  pub log_level : Text
  pub toggle : Bool
  pub path : Text

unfoldable pub root_flags : Flags → Flags
root_flags f = record f { verbose = true; log_level = bytes "INFO"; toggle = false }

unfoldable pub install_flags : Flags → Flags
install_flags f = record f { path = bytes "/opt/pact" }

-- `main`: cobra finds the command of its arguments, runs it and gives the error.
unfoldable pub main : {Args : Type 0} → (Args → Option Error) → Args → Text × Exit
unfolding execute
main root_execute args = execute (root_execute args)

abbrev pub version : Text
version = bytes "v1.5.2"

abbrev pub cli_tools_version : Text
cli_tools_version = bytes "1.82.3"

unfoldable pub version_text : Text
version_text =
    bytes "Pact Go CLI " ++ version ++ bytes ", using CLI tools version " ++ cli_tools_version

exit-none : (code : ℕ) (e : Option Error) → (exit_on_error code e ≡ none) ↔ (e ≡ none)
unfolding exit_on_error
exit-none code none = (λ h. refl, λ h. refl)
exit-none code (some e) = (λ h. absurd (cc), λ h. absurd (cc))

-- Whatever the order in which the installer goes through its map, the install command exits with code
-- 1 unless every tool is within its range.
install_iff :
    {Version : Type 0} (commander : Commander Version) (entries : List (Text × Text))
    (verbose : Bool) (level : Text)
    → Permᴰ version_map entries
    → ((install commander entries verbose level).1 ≡ none) ↔ (
        IsWithin commander (bytes "pact-mock-service") mock_service_range
        × IsWithin commander (bytes "pact-provider-verifier") verifier_range
        × IsWithin commander (bytes "pact-broker") broker_range)
unfolding install
install_iff commander entries verbose level p =
    let (f, g) = exit-none 1 (check_entries commander entries) in
    let (f', g') = check_installation_iff commander entries p in (λ h. f' (f h), λ h. g (g' h))
