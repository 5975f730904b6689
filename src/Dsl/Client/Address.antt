-- ===== src/Dsl/Client/Address.antt =====
-- dsl/client.go `getPort` and `getAddress`.
pub mod RoundTrip
use pact_go.Common.{
  ℕ, ◌≤◌, ℤ, pos, negsuc, Text, bytes, text_eq, Error, Result, ok, err, Option, none, some, List,
  [], ◌∷◌, ◌++◌, ◌≡◌, ◌≢◌, refl, if◌then◌else◌, true, false,
}
use pact_go.Common.Lists.{All}
use pact_go.Utils.Decimal.{atoi, itoa, atoi-itoa, max_int}
use pact_go.Common.{split}

-- What the code reads of a `url.URL`. The port of a host that `url.Parse` gives has only digits.
pub record ParsedUrl : Type 0 where
  pub scheme : Text
  pub host : Text
  pub path : Text
  pub hostname : Text
  pub port : Text

abbrev pub default_port : ParsedUrl → ℕ
default_port u = if text_eq u.scheme (bytes "https") then 443 else 80

unfoldable pub port_or : ℕ → Result ℕ → ℕ
port_or default (ok port) = port
port_or default (err e) = default

unfoldable pub host_port : ParsedUrl → List Text → ℕ
unfolding port_or
host_port u (host ∷ port ∷ []) = port_or (default_port u) (atoi port)
host_port u _ = default_port u

-- `splitHost[0]`; a split has always a first part.
abbrev pub first : List Text → Text
first [] = []
first (p ∷ ps) = p

module _ (parse : Text → Result ParsedUrl) where
  unfoldable pub get_port : Text → ℤ
  unfolding host_port
  get_port raw_url = elim (parse raw_url) [
    | err e ↦ negsuc 0
    | ok u ↦ pos (host_port u (split u.host b':'))
  ]

  unfoldable pub get_address : Text → Text
  get_address raw_url = elim (parse raw_url) [ err e ↦ [] | ok u ↦ first (split u.host b':') ]
