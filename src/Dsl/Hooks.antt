-- ===== src/Dsl/Hooks.antt =====
-- dsl/pact.go: the middleware of a provider verification (`BeforeEachMiddleware`,
-- `AfterEachMiddleware`, `stateHandlerMiddleware`) and the list that `VerifyProviderRaw` builds.
pub mod States
pub mod Order
use pact_go.Common.{
  ℕ, Text, bytes, text_eq, Error, Outcome, returns, panics, ◌>>=◌, Bool, not, Option, none, some,
  List, [], ◌∷◌, ◌++◌, if◌then◌else◌,
}
use pact_go.Common.Lists.{is_nil}
use pact_go.Http.{HttpRequest, Handler, Middleware, Hook, StateHandlers}
use pact_go.Types.VerifyRequest.{VerifyRequest}

-- types/provider_state.go
pub record ProviderState : Type 0 where
  pub consumer : Text
  pub state : Text
  pub states : List Text

unfoldable pub provider_states_setup_path : Text
provider_states_setup_path = bytes "/__setup"

-- `r.URL.Path == providerStatesSetupPath`
abbrev pub is_setup : HttpRequest → Bool
is_setup r = text_eq r.url.path provider_states_setup_path

-- `v, found := handlers[key]`
unfoldable pub find_handler : {H : Type 0} → Text → List (Text × H) → Option H
find_handler key [] = none
find_handler key ((k, h) ∷ handlers) = if text_eq k key then some h else find_handler key handlers

pub filter_list : {W : Type 0} → Option (Middleware W) → List (Middleware W)
filter_list none = []
filter_list (some filter) = filter ∷ []

module _ {W : Type 0} (write_header : ℕ → W → W) where
  -- What a hook that has run leaves: an error is reported as status 500.
  abbrev pub report : W × Option Error → W
  report (w, none) = w
  report (w, some e) = write_header 500 w

  pub before_each_middleware : Hook W → Middleware W
  before_each_middleware before_each next r w =
      if is_setup r then next r (report (before_each w)) else next r w

  pub after_each_middleware : Hook W → Middleware W
  after_each_middleware after_each next r w = do
    w' ← next r w
    if not (is_setup r) then returns (report (after_each w')) else returns w'

  -- `for _, state := range s.States`, and the status that is written behind the loop
  unfoldable pub serve_states : StateHandlers W → List Text → W → W
  serve_states handlers [] w = write_header 200 w
  serve_states handlers (state ∷ states) w = elim (find_handler state handlers) [
    | none ↦ serve_states handlers states w
    | some sf ↦
        let (w', e) = sf w in
        elim e [ some _ ↦ write_header 500 w' | none ↦ serve_states handlers states w' ]
  ]

  -- What each `if` of `VerifyProviderRaw` appends to the list `m`.
  pub before_list : Option (Hook W) → List (Middleware W)
  before_list none = []
  before_list (some hook) = before_each_middleware hook ∷ []

  pub after_list : Option (Hook W) → List (Middleware W)
  after_list none = []
  after_list (some hook) = after_each_middleware hook ∷ []

  -- What a setup request gets: a nil `s` makes the loop over `s.States` panic.
  pub serve_setup : Option ProviderState → StateHandlers W → W → Outcome W
  serve_setup none handlers w = panics
  serve_setup (some s) handlers w = returns (serve_states handlers s.states w)

  -- `decode` gives what `json.Decoder.Decode` leaves in the pointer `s`: `none` is nil.
  module _ (decode : Text → Option ProviderState) where
    pub state_handler_middleware : StateHandlers W → Middleware W
    state_handler_middleware handlers next r w =
        if is_setup r then serve_setup (decode r.body) handlers w else next r w

    pub state_list : StateHandlers W → List (Middleware W)
    state_list [] = []
    state_list (h ∷ handlers) = state_handler_middleware (h ∷ handlers) ∷ []

    pub verification_middleware :
        {Time TlsConfig : Type 0} → VerifyRequest W Time TlsConfig → List (Middleware W)
    verification_middleware request =
        before_list request.before_each
        ++ (after_list request.after_each
            ++ (state_list request.state_handlers ++ filter_list request.request_filter))
