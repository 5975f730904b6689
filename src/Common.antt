-- ===== src/Common.antt =====
-- Names that every module shares: those of the libraries, passed on, and those of three children:
-- tests and conditionals, Go strings as lists of bytes, and Go results with an error.
mod Tests
mod Strings
mod Results
pub mod Lists
pub mod Int
pub mod Steps
pub mod Split
pub mod Perms
pub mod Runs
pub use Tests.*
unfoldable pub use Strings.*
pub use Results.*
pub use Prim.Native.Nat.{ℕ, zero, suc, ◌+◌, ◌-◌, ◌*◌, ◌/◌, ◌%◌, ◌^◌, ◌≤◌, ◌<◌}
pub use Prim.Native.String.{String}
pub use mathlib.Core.Path.{◌≡◌, refl, sym, ap, ◌∙◌, ◌≡⟨◌⟩◌, ◌∎}
pub use mathlib.Core.Logic.{◌≢◌, ◌↔◌, ◌⊎◌, inl, inr}
pub use mathlib.Core.Bool.{Bool, true, false, not, ◌&&◌, ◌||◌}
pub use mathlib.Core.Option.{Option, none, some}
pub use Int.{ℤ, pos, negsuc}
pub use mathlib.Core.List.{List, [], ◌∷◌, ◌++◌, map, append_assoc, append-nil}
pub use native.Mathlib.Omega.{arith}
