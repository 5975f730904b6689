-- ===== src/Http.antt =====
-- What proxy/ and dsl/ use of Go's `net/url` and `net/http`: requests, handlers, and the host that
-- the program runs on.
use pact_go.Common.{Text, Error, Option, List, Outcome}

-- The fields of `url.URL` that the code reads or writes.
pub record Url : Type 0 where
  pub scheme : Text
  pub host : Text
  pub path : Text
  pub raw_query : Text

-- An `http.Request`; a header is an association list.
pub record HttpRequest : Type 0 where
  pub url : Url
  pub host : Text
  pub header : List (Text × Text)
  pub body : Text

-- The world that handlers and hooks act on: the provider, the log and the response being written.
-- `http.Handler` is a function of the request that changes the world, or panics.
abbrev pub Handler : Type 0 → Type 0
Handler W = HttpRequest → W → Outcome W

-- types/verify_request.go `Hook` and types/handler.go `StateHandler`: a callback of the user.
abbrev pub Hook : Type 0 → Type 0
Hook W = W → W × Option Error

-- proxy/http.go `Middleware`
abbrev pub Middleware : Type 0 → Type 0
Middleware W = Handler W → Handler W

-- types/handler.go `StateHandlers`
abbrev pub StateHandlers : Type 0 → Type 0
StateHandlers W = List (Text × Hook W)
