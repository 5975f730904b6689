-- ===== src/Dsl/Hooks/Order.antt =====
-- What the middleware that `VerifyProviderRaw` of dsl/pact.go builds does with a request, in the
-- order in which hooks, state handlers, request filter and provider are called.
use pact_go.Common.{
  ℕ, Text, Outcome, returns, panics, ◌>>=◌, true, false, not, Option, none, some, List, [], ◌∷◌,
  ◌++◌, ◌≡◌, ◌≢◌, refl, sym, ap, ◌∙◌,
}
use pact_go.Http.{HttpRequest, Handler, Middleware, Hook, StateHandlers}
use pact_go.Types.VerifyRequest.{VerifyRequest}
use pact_go.Proxy.Chain.{nest}
use pact_go.Dsl.Hooks.{
  ProviderState, is_setup, report, before_each_middleware, after_each_middleware,
  state_handler_middleware, verification_middleware, before_list, after_list, state_list,
  filter_list, serve_setup,
}

pub >>=-returns : {A : Type 0} (o : Outcome A) → (o >>= λ a. returns a) ≡ o
>>=-returns (returns a) = refl
>>=-returns panics = refl

abbrev pub filtered : {W : Type 0} → Option (Middleware W) → Handler W → Handler W
filtered none final = final
filtered (some filter) final = filter final

nest-filter :
    {W : Type 0} (f : Option (Middleware W)) (final : Handler W)
    → nest (filter_list f) final ≡ filtered f final
unfolding nest filter_list
nest-filter none final = refl
nest-filter (some filter) final = refl

module _ {W : Type 0} (write_header : ℕ → W → W) where
  -- What an optional hook does to the world.
  abbrev pub after_hook : Option (Hook W) → W → W
  after_hook none w = w
  after_hook (some hook) w = report write_header (hook w)

  module _ (decode : Text → Option ProviderState) (r : HttpRequest) where
    module _ (rest : List (Middleware W)) (final : Handler W) (w : W) where
      nest-before_setup :
          (b : Option (Hook W))
          → is_setup r ≡ true
          → nest (before_list write_header b ++ rest) final r w ≡ nest rest final r (after_hook b w)
      unfolding nest before_list before_each_middleware
      nest-before_setup none setup = refl
      nest-before_setup (some hook) setup = rw setup

      nest-before_other :
          (b : Option (Hook W))
          → is_setup r ≡ false
          → nest (before_list write_header b ++ rest) final r w ≡ nest rest final r w
      unfolding nest before_list before_each_middleware
      nest-before_other none other = refl
      nest-before_other (some hook) other = rw other

      nest-after_setup :
          (a : Option (Hook W))
          → is_setup r ≡ true
          → nest (after_list write_header a ++ rest) final r w ≡ nest rest final r w
      unfolding nest after_list after_each_middleware
      nest-after_setup none setup = refl
      nest-after_setup (some hook) setup = rw (setup, not) (>>=-returns _)

      nest-after_other :
          (a : Option (Hook W))
          → is_setup r ≡ false
          → nest (after_list write_header a ++ rest) final r w
            ≡ (nest rest final r w >>= λ w'. returns (after_hook a w'))
      unfolding nest after_list after_each_middleware
      nest-after_other none other = sym (>>=-returns _)
      nest-after_other (some hook) other = rw (other, not)

      nest-states_setup :
          (handlers : StateHandlers W)
          → is_setup r ≡ true
          → handlers ≢ []
          → nest (state_list write_header decode handlers ++ rest) final r w
            ≡ serve_setup write_header (decode r.body) handlers w
      unfolding nest state_list state_handler_middleware
      nest-states_setup [] setup given = absurd (given refl)
      nest-states_setup (h ∷ handlers) setup given = rw setup

      nest-states_other :
          (handlers : StateHandlers W)
          → is_setup r ≡ false
          → nest (state_list write_header decode handlers ++ rest) final r w ≡ nest rest final r w
      unfolding nest state_list state_handler_middleware
      nest-states_other [] other = refl
      nest-states_other (h ∷ handlers) other = rw other

    module _ {Time TlsConfig : Type 0} (request : VerifyRequest W Time TlsConfig)
        (provider : Handler W) (w : W) where
      -- A request of the verifier to set up states never reaches the request filter or the
      -- provider, if the verification has state handlers: the BeforeEach hook runs, then the state
      -- handlers; the AfterEach hook does not run.
      pub nest_setup :
          is_setup r ≡ true
          → request.state_handlers ≢ []
          → nest (verification_middleware write_header decode request) provider r w
            ≡ serve_setup write_header
                (decode r.body)
                request.state_handlers
                (after_hook request.before_each w)
      unfolding verification_middleware
      nest_setup setup given =
          nest-before_setup _ provider w request.before_each setup
          ∙ nest-after_setup _ provider _ request.after_each setup
          ∙ nest-states_setup _ provider _ request.state_handlers setup given

      -- Every other request goes through the request filter to the provider, with no BeforeEach
      -- hook and no state handler before it; if they return, the AfterEach hook runs behind them.
      pub nest_other :
          is_setup r ≡ false
          → nest (verification_middleware write_header decode request) provider r w ≡ (
              filtered request.request_filter provider r w >>= λ w'.
              returns (after_hook request.after_each w'))
      unfolding verification_middleware
      nest_other other =
          nest-before_other _ provider w request.before_each other
          ∙ nest-after_other _ provider w request.after_each other
          ∙ ap (λ o. o >>= λ w'. returns (after_hook request.after_each w'))
              (nest-states_other _ provider w request.state_handlers other
                ∙ ap (λ h. h r w) (nest-filter request.request_filter provider))
