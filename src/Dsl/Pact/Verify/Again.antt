-- ===== src/Dsl/Pact/Verify/Again.antt =====
-- dsl/pact.go: calls of `AddInteraction`, `Verify` and `WritePact` on a `Pact` that is set up.
use pact_go.Common.{
  bytes, Error, Outcome, returns, ◌>>=◌, returns_inj, >>=_inv, true, Option, none, some, List, [],
  ◌∷◌, ◌++◌, ◌≡◌, refl, sym, ap, ◌∙◌, inl, inr, Bool-cases, append-nil, append_assoc,
}
use pact_go.Common.Lists.{is_nil}
use pact_go.Dsl.MockService.{MockService, Http}
use pact_go.Dsl.MockService
use pact_go.Dsl.Pact.{MockServer, Pact, System, or_text, setup, setup_defaults, add_interaction}
use pact_go.Dsl.Pact.Ready.{IsConfigured, IsReady, setup-IsConfigured, setup_again}
use pact_go.Dsl.Pact.Verify.{base_url, no_interactions, verify_on, verify, write_on, write_pact}
use pact_go.Dsl.Pact.Verify.Order.{service, verify_nothing}

module _ {W Client Interaction Message : Type 0} (sys : System W Client) where
  -- The interactions have no part in being ready.
  pub with_interactions-IsReady :
      (p : Pact Client Interaction Message) (is : List Interaction)
      → IsReady sys p
      → IsReady sys (record p { interactions = is })
  unfolding setup_defaults
  with_interactions-IsReady p is ready = record {
    tested = ready.tested;
    filter = ready.filter;
    logging = ready.logging;
    defaults = λ k. record (ready.defaults k) { interactions = is };
    running = ready.running;
    server = ready.server;
  }

  -- One `AddInteraction` behind the other.
  unfoldable pub add_each :
      List Interaction
      → Pact Client Interaction Message
      → W
      → Outcome (Pact Client Interaction Message × W)
  add_each [] p w = returns (p, w)
  add_each (i ∷ is) p w = add_interaction sys i p w >>= λ (p', w'). add_each is p' w'

  add_each-IsReady :
      (is : List Interaction) (p : Pact Client Interaction Message) (w : W)
      → IsReady sys p
      → add_each is p w ≡ returns (record p { interactions = p.interactions ++ is }, w)
  unfolding add_each add_interaction
  add_each-IsReady [] p w ready =
      λ k. returns (record p { interactions = sym (append-nil p.interactions) k }, w)
  add_each-IsReady (i ∷ is) p w ready = rw (setup_again sys p true w ready) (
      add_each-IsReady is (record p { interactions = p.interactions ++ i ∷ [] }) w
        (with_interactions-IsReady p (p.interactions ++ i ∷ []) ready)
      ∙ (λ k. returns (record p { interactions = append_assoc p.interactions (i ∷ []) is k }, w)))

  -- Behind an `AddInteraction` that returns, further ones set nothing up again and do nothing to the
  -- world: they append their interactions in the order of the calls.
  add_each-appends :
      (i : Interaction) (is : List Interaction) (p p' : Pact Client Interaction Message) (w w' : W)
      → add_interaction sys i p w ≡ returns (p', w')
      → (p'.interactions ≡ p.interactions ++ i ∷ [])
        × (add_each is p' w' ≡ returns (record p' { interactions = p'.interactions ++ is }, w'))
  unfolding add_interaction
  add_each-appends i is p p' w w' run =
      let ((q, w₁), prepared, rest) = >>=_inv (setup sys true p w) _ run in
      let (config, ready) = setup-IsConfigured sys p q w w₁ prepared in
      let same : record q { interactions = q.interactions ++ i ∷ [] } ≡ p' =
        ap (λ (r : Pact Client Interaction Message × W). r.0) (returns_inj rest) in
      rw (← same) (
        ap (λ (x : List Interaction). x ++ i ∷ []) config.interactions,
        add_each-IsReady is (record q { interactions = q.interactions ++ i ∷ [] }) w'
            (with_interactions-IsReady q (q.interactions ++ i ∷ []) ready),
      )

  module _ (http : Http W Interaction) where
    cleared-IsReady :
        (server : Option MockServer) (q p' : Pact Client Interaction Message)
        (test : W → W × Option Error) (w w' : W) (e : Option Error)
        → IsReady sys q
        → verify_on sys http server q test w ≡ returns (p', w', e)
        → IsReady sys p' × (is_nil p'.interactions ≡ true)
    unfolding verify_on
    cleared-IsReady none q p' test w w' e ready run = absurd (cc)
    cleared-IsReady (some s) q p' test w w' e ready run =
        let same : record q { interactions = [] } ≡ p' =
          ap (λ (r : Pact Client Interaction Message × W × Option Error). r.0) (returns_inj run) in
        rw (← same) (with_interactions-IsReady q [] ready, refl)

    left-IsReady :
        (p p' : Pact Client Interaction Message) (test : W → W × Option Error) (w w' : W)
        (e : Option Error)
        → verify sys http p test w ≡ returns (p', w', e)
        → IsReady sys p' × (is_nil p'.interactions ≡ true)
    unfolding verify
    left-IsReady p p' test w w' e run =
        let ((q, w₁), prepared, rest) = >>=_inv (setup sys true p w) _ run in
        let (config, ready) = setup-IsConfigured sys p q w w₁ prepared in
        elim (Bool-cases (is_nil q.interactions)) [
          | inl empty ↦
              let same : q ≡ p' =
                ap (λ (r : Pact Client Interaction Message × W × Option Error). r.0)
                  (returns_inj (rw empty at rest)) in
              rw (← same) (ready, empty)
          | inr given ↦ cleared-IsReady q.server q p' test w₁ w' e ready (rw given at rest)
        ]

    -- A `Verify` that returns, whatever its result, leaves no interaction: a second one returns the
    -- error for that, changes nothing and does nothing to the world.
    pub verify_again :
        (p p' : Pact Client Interaction Message) (test test' : W → W × Option Error) (w w' w'' : W)
        (e : Option Error)
        → verify sys http p test w ≡ returns (p', w', e)
        → verify sys http p' test' w'' ≡ returns (p', w'', some no_interactions)
    verify_again p p' test test' w w' w'' e run =
        let (ready, empty) = left-IsReady p p' test w w' e run in
        verify_nothing sys http p' p' test' w'' w'' empty (setup_again sys p' true w'' ready)

    write_on-some :
        (server : Option MockServer) (s : MockServer) (p q : Pact Client Interaction Message)
        (w : W)
        → IsConfigured sys p q
        → server ≡ some s
        → write_on sys http server q w ≡ (
            let (w', e) =
              MockService.write_pact http
                (service p s (or_text (bytes "overwrite") p.pact_file_write_mode))
                w in
            returns (q, w', e))
    unfolding write_on
    write_on-some none s p q w config same = absurd (cc)
    write_on-some (some s') s p q w config same =
        let same_server : s' ≡ s =
          ap (λ (o : Option MockServer). elim o [ some x ↦ x | none ↦ s ]) same in
        λ k.
          let (w', e) =
            MockService.write_pact http
              (record {
                base_url = base_url (config.host k) (same_server k);
                consumer = config.consumer k;
                provider = config.provider k;
                pact_file_write_mode = config.write_mode k;
              })
              w in
          returns (q, w', e)

    -- Behind a `Setup` that returns, `WritePact` has the mock service write the pact, at the host and
    -- port of the server, with the names of the `Pact` and its write mode, or "overwrite" if it has
    -- none; the result is that of the call.
    pub write_pact-calls :
        (p q : Pact Client Interaction Message) (w w₁ : W)
        → setup sys true p w ≡ returns (q, w₁)
        → (s : MockServer) × (q.server ≡ some s)
          × (write_pact sys http p w ≡ (
              let (w', e) =
                MockService.write_pact http
                  (service p s (or_text (bytes "overwrite") p.pact_file_write_mode))
                  w₁ in
              returns (q, w', e)))
    unfolding write_pact
    write_pact-calls p q w w₁ prepared =
        let (config, ready) = setup-IsConfigured sys p q w w₁ prepared in
        (
          ready.running,
          ready.server,
          rw prepared (write_on-some q.server ready.running p q w₁ config ready.server),
        )
