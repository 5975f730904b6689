-- ===== src/Dsl/Pact/Verify/Order.antt =====
-- The order of the calls that `Verify` of dsl/pact.go makes.
use pact_go.Common.{
  Text, bytes, Error, returns, returns_inj, Bool, true, false, Option, none, some, List, [], ◌∷◌,
  if◌then◌else◌, ◌≡◌, refl, sym, ap, ◌∙◌,
}
use pact_go.Common.Lists.{is_nil}
use pact_go.Common.Steps.{unless_failed, run_steps, unless_failed_assoc, unless_failed-none}
use pact_go.Dsl.MockService.{MockService, Http}
use pact_go.Dsl.MockService
use pact_go.Dsl.Pact.{MockServer, Pact, System, or_text, setup}
use pact_go.Dsl.Pact.Ready.{IsConfigured, setup-IsConfigured}
use pact_go.Dsl.Pact.Verify.{base_url, no_interactions, add_all, verify_steps, verify_on, verify}

module _ {W Interaction : Type 0} (http : Http W Interaction) where
  -- The calls for the interactions, and `rest` behind them.
  unfoldable pub additions :
      MockService → List Interaction → List (W → W × Option Error) → List (W → W × Option Error)
  additions m [] rest = rest
  additions m (i ∷ is) rest = MockService.add_interaction http m i ∷ additions m is rest

  add_all-run_steps :
      (m : MockService) (is : List Interaction) (rest : List (W → W × Option Error)) (w : W)
      → unless_failed (add_all http m is w) (run_steps rest) ≡ run_steps (additions m is rest) w
  unfolding add_all run_steps additions unless_failed
  add_all-run_steps m [] rest w = refl
  add_all-run_steps m (i ∷ is) rest w =
      unless_failed_assoc (MockService.add_interaction http m i w) (add_all http m is)
        (run_steps rest)
      ∙ (λ k.
          unless_failed (MockService.add_interaction http m i w)
            (λ w'. add_all-run_steps m is rest w' k))

  pub verify_steps-run_steps :
      (m : MockService) (is : List Interaction) (test : W → W × Option Error) (w : W)
      → verify_steps http m is test w
        ≡ run_steps (additions m is (test ∷ MockService.verify http m ∷ [])) w
  unfolding verify_steps run_steps
  verify_steps-run_steps m is test w =
      (λ k. unless_failed (add_all http m is w) (λ w'.
        unless_failed (test w')
          (λ w''. sym (unless_failed-none (MockService.verify http m w'')) k)))
      ∙ add_all-run_steps m is (test ∷ MockService.verify http m ∷ []) w

-- The mock service that a `Pact` with this server speaks to.
abbrev pub service :
    {Client Interaction Message : Type 0}
    → Pact Client Interaction Message
    → MockServer
    → Text
    → MockService
service p s mode = record {
  base_url = base_url (or_text (bytes "localhost") p.host) s;
  consumer = p.consumer;
  provider = p.provider;
  pact_file_write_mode = mode;
}

module _ {W Client Interaction Message : Type 0} (sys : System W Client)
    (http : Http W Interaction) where
  -- What `Verify` does from the world behind its `Setup` on.
  pub record RunsInOrder (p : Pact Client Interaction Message) (test : W → W × Option Error) (w : W)
      (p' : Pact Client Interaction Message) (w' : W) (e : Option Error) : Type 0 where
    pub running : MockServer
    pub server : p'.server ≡ some running
    pub cleared : p'.interactions ≡ []
    pub calls : W × Option Error
    pub in_order :
        calls
        ≡ run_steps
            (additions http
              (service p running [])
              p.interactions
              (test ∷ MockService.verify http (service p running []) ∷ []))
            w
    pub outcome : e ≡ calls.1
    pub last : w' ≡ (MockService.delete_interactions http (service p running []) calls.0).0

  abbrev pub service_on : Pact Client Interaction Message → MockServer → Text → MockService
  service_on q s mode = record {
    base_url = base_url q.host s;
    consumer = q.consumer;
    provider = q.provider;
    pact_file_write_mode = mode;
  }

  pub service_of :
      (p q : Pact Client Interaction Message) (s : MockServer) (mode : Text)
      → IsConfigured sys p q
      → service_on q s mode ≡ service p s mode
  service_of p q s mode config = λ k. record {
    base_url = base_url (config.host k) s;
    consumer = config.consumer k;
    provider = config.provider k;
    pact_file_write_mode = mode;
  }

  verify_on-RunsInOrder :
      (server : Option MockServer) (p q p' : Pact Client Interaction Message)
      (test : W → W × Option Error) (w w' : W) (e : Option Error)
      → IsConfigured sys p q
      → q.server ≡ server
      → verify_on sys http server q test w ≡ returns (p', w', e)
      → RunsInOrder p test w p' w' e
  unfolding verify_on
  verify_on-RunsInOrder none p q p' test w w' e config same run = absurd (cc)
  verify_on-RunsInOrder (some s) p q p' test w w' e config same run =
      let out = returns_inj run in
      record {
        running = s;
        server =
            sym (ap (λ (r : Pact Client Interaction Message × W × Option Error). r.0.server) out)
            ∙ same;
        cleared =
            sym (
              ap (λ (r : Pact Client Interaction Message × W × Option Error). r.0.interactions)
                out);
        calls = verify_steps http (service_on q s []) q.interactions test w;
        in_order = verify_steps-run_steps http (service_on q s []) q.interactions test w ∙ (λ k.
            run_steps
              (additions http (service_of p q s [] config k) (config.interactions k)
                (test ∷ MockService.verify http (service_of p q s [] config k) ∷ []))
              w);
        outcome = sym (ap (λ (r : Pact Client Interaction Message × W × Option Error). r.2) out);
        last =
            sym (ap (λ (r : Pact Client Interaction Message × W × Option Error). r.1) out) ∙ (λ k.
              (MockService.delete_interactions http (service_of p q s [] config k)
                (verify_steps http (service_on q s []) q.interactions test w).0).0);
      }

  verify_on_returns :
      (server : Option MockServer) (s : MockServer) (q : Pact Client Interaction Message)
      (test : W → W × Option Error) (w : W)
      → server ≡ some s
      → (p' : Pact Client Interaction Message) × (w' : W) × (e : Option Error) × (verify_on sys http
            server q test w
          ≡ returns (p', w', e))
  unfolding verify_on
  verify_on_returns none s q test w same = absurd (cc)
  verify_on_returns (some s') s q test w same =
      let m = service_on q s' [] in
      let (w₁, e) = verify_steps http m q.interactions test w in
      (record q { interactions = [] }, (MockService.delete_interactions http m w₁).0, e, refl)

  -- Behind a `Setup` that returns, a `Verify` of a `Pact` that has interactions returns. On a mock
  -- service at the host and port of its server, it makes the calls for the interactions in their
  -- order, the integration test and the verification, up to the first that fails, whose error is the
  -- result; then, whatever their result, it deletes the interactions there and in the `Pact`.
  pub verify-RunsInOrder :
      (p q : Pact Client Interaction Message) (test : W → W × Option Error) (w w₁ : W)
      → is_nil p.interactions ≡ false
      → setup sys true p w ≡ returns (q, w₁)
      → (p' : Pact Client Interaction Message) × (w' : W) × (e : Option Error) × (verify sys http p
            test w
          ≡ returns (p', w', e))
        × RunsInOrder p test w₁ p' w' e
  unfolding verify
  verify-RunsInOrder p q test w w₁ given prepared =
      let (config, ready) = setup-IsConfigured sys p q w w₁ prepared in
      let (p', w', e, run) = verify_on_returns q.server ready.running q test w₁ ready.server in
      (
        p',
        w',
        e,
        rw prepared (
            ap
              (λ (b : Bool).
                if b
                then returns (q, w₁, some no_interactions)
                else verify_on sys http q.server q test w₁)
              (ap is_nil config.interactions ∙ given)
            ∙ run),
        verify_on-RunsInOrder q.server p q p' test w₁ w' e config refl run,
      )

  -- A `Verify` of a `Pact` with no interactions and whose set-up returns calls nothing behind it,
  -- and its result is the error for that.
  pub verify_nothing :
      (p q : Pact Client Interaction Message) (test : W → W × Option Error) (w w₁ : W)
      → is_nil p.interactions ≡ true
      → setup sys true p w ≡ returns (q, w₁)
      → verify sys http p test w ≡ returns (q, w₁, some no_interactions)
  unfolding verify
  verify_nothing p q test w w₁ none_given prepared =
      let (config, _) = setup-IsConfigured sys p q w w₁ prepared in
      rw prepared (
        ap
          (λ (b : Bool).
            if b
            then returns (q, w₁, some no_interactions)
            else verify_on sys http q.server q test w₁)
          (ap is_nil config.interactions ∙ none_given))
