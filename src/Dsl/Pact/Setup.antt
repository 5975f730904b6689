-- ===== src/Dsl/Pact/Setup.antt =====
-- The stages of a `Setup` of dsl/pact.go that returns.
use pact_go.Common.{
  Text, Error, ◌>>=◌, if◌then◌else◌, Outcome, returns, panics, >>=_inv, returns_inj, Bool, true,
  false, Option, none, some, ◌≡◌, ◌⊎◌, inl, inr, refl, sym, ap, ◌∙◌, ◌↔◌, Bool-cases,
}
use pact_go.Dsl.Pact.{
  MockServer, Pact, System, setup_logging, logging_with, setup_defaults, check_tools, checked,
  start_with, setup_port, server_args, needs_check, start_if_needed, setup,
}

module _ {W Client Interaction Message : Type 0} (sys : System W Client) where
  -- The stages of a `Setup` that returns.
  checked_inv :
      (p p₁ : Pact Client Interaction Message) (r : W × Option Error) (w₁ : W)
      → checked sys p r ≡ returns (p₁, w₁)
      → record p { tool_validity_check = true } ≡ p₁
  unfolding checked
  checked_inv p p₁ (w, none) w₁ e =
      ap (λ (r : Pact Client Interaction Message × W). r.0) (returns_inj e)
  checked_inv p p₁ (w, some x) w₁ e = absurd (cc)

  check_tools_inv :
      (p p₁ : Pact Client Interaction Message) (w w₁ : W)
      → check_tools sys p w ≡ returns (p₁, w₁)
      → (needs_check sys p₁ ≡ false) × ((c : Bool) × (p₁ ≡ record p { tool_validity_check = c }))
  unfolding check_tools
  check_tools_inv p p₁ w w₁ e = elim (Bool-cases (needs_check sys p)) [
    | inl needed ↦
        let e' = checked_inv p p₁ (sys.check_installation w) w₁ (rw needed at e) in
        (rw (← e') refl, (true, sym e'))
    | inr skipped ↦
        let e' : p ≡ p₁ =
          ap (λ (r : Pact Client Interaction Message × W). r.0) (returns_inj (rw skipped at e)) in
        (rw (← e') skipped, (p.tool_validity_check, sym e'))
  ]

  pub start_with_inv :
      (server : Option MockServer) (client : Option Client) (p p' : Pact Client Interaction Message)
      (w w' : W)
      → p.server ≡ server
      → start_with sys server client p w ≡ returns (p', w')
      → (s : MockServer) × (p' ≡ record p { server = some s })
  unfolding start_with
  start_with_inv (some s) client p p' w w' q e = (
    s,
    sym (ap (λ (r : Pact Client Interaction Message × W). r.0) (returns_inj e))
        ∙ (λ i. record p { server = q i }),
  )
  start_with_inv none none p p' w w' q e = absurd (cc)
  start_with_inv none (some c) p p' w w' q e =
      let ((w₁, s), started, same) =
        >>=_inv (sys.start_server c (server_args sys p) (setup_port sys p) w) _ e in
      (s, sym (ap (λ (r : Pact Client Interaction Message × W). r.0) (returns_inj same)))

  -- The first part of `Setup`, on a `Pact` whose tools have been checked or not.
  abbrev pub prepared : Bool → Pact Client Interaction Message → Pact Client Interaction Message
  prepared c p = setup_defaults sys (record (setup_logging p) { tool_validity_check = c })

  pub setup_inv :
      (start : Bool) (p p' : Pact Client Interaction Message) (w w' : W)
      → setup sys start p w ≡ returns (p', w')
      → (c : Bool) × (w₁ : W) × (needs_check sys (prepared c p) ≡ false)
        × (start_if_needed sys start (prepared c p) w₁ ≡ returns (p', w'))
  unfolding setup
  setup_inv start p p' w w' e =
      let ((p₁, w₁), e₁, e₂) = >>=_inv (check_tools sys (setup_logging p) w) _ e in
      let (fine, (c, same)) = check_tools_inv (setup_logging p) p₁ w w₁ e₁ in
      (c, w₁, unfold setup_defaults in rw same at fine, rw same at e₂)

  -- The tools of a `Pact` are not to be checked, or the check finds no fault.
  abbrev pub ToolsPass : Pact Client Interaction Message → W → Type 0
  ToolsPass p w = (needs_check sys p ≡ false) ⊎ ((sys.check_installation w).1 ≡ none)

  -- The `Pact` and the world behind a check that finds no fault.
  abbrev pub after_check : Pact Client Interaction Message → W → Pact Client Interaction Message × W
  after_check p w =
      if needs_check sys p
      then (record p { tool_validity_check = true }, (sys.check_installation w).0)
      else (p, w)

  checked_returns :
      (p : Pact Client Interaction Message) (r : W × Option Error)
      → r.1 ≡ none
      → checked sys p r ≡ returns (record p { tool_validity_check = true }, r.0)
  unfolding checked
  checked_returns p (w, none) e = refl
  checked_returns p (w, some x) e = absurd (cc)

  check_tools_returns :
      (p : Pact Client Interaction Message) (w : W)
      → ToolsPass p w
      → check_tools sys p w ≡ returns (after_check p w)
  unfolding check_tools
  check_tools_returns p w (inl skipped) = rw skipped refl
  check_tools_returns p w (inr pass) = elim (Bool-cases (needs_check sys p)) [
    | inl needed ↦ rw needed (checked_returns p (sys.check_installation w) pass)
    | inr skipped ↦ rw skipped refl
  ]

  checked_fails :
      (p : Pact Client Interaction Message) (r : W × Option Error)
      → (r.1 ≡ none) ⊎ (checked sys p r ≡ panics)
  unfolding checked
  checked_fails p (w, none) = inl refl
  checked_fails p (w, some x) = inr refl

  pass_of :
      (p p₁ : Pact Client Interaction Message) (w w₁ : W)
      → check_tools sys p w ≡ returns (p₁, w₁)
      → ToolsPass p w
  unfolding check_tools
  pass_of p p₁ w w₁ e = elim (Bool-cases (needs_check sys p)) [
    | inr skipped ↦ inl skipped
    | inl needed ↦ elim (checked_fails p (sys.check_installation w)) [
      | inl pass ↦ inr pass
      | inr fails ↦ let e' = rw (needed, fails) at e in absurd (cc)
    ]
  ]

  -- The logging filter has no part in the check.
  pass_logging :
      (f : Option Text) (p : Pact Client Interaction Message) (w : W)
      → ToolsPass (logging_with f p) w ↔ ToolsPass p w
  unfolding logging_with
  pass_logging (some f) p w = (λ pass. pass, λ pass. pass)
  pass_logging none p w = (λ pass. pass, λ pass. pass)

  -- No server is to be started, or there is one, or the client's start of one returns.
  pub data Startable (start : Bool) (p : Pact Client Interaction Message) (w : W) : Type 0 where
    unasked : start ≡ false → Startable start p w
    running : (s : MockServer) → p.server ≡ some s → Startable start p w
    started :
        (c : Client) (w' : W) (s : MockServer)
        → p.pact_client ≡ some c
        → sys.start_server c (server_args sys p) (setup_port sys p) w ≡ returns (w', s)
        → Startable start p w

  start_with-Startable :
      (server : Option MockServer) (client : Option Client) (p p' : Pact Client Interaction Message)
      (w w' : W)
      → p.server ≡ server
      → p.pact_client ≡ client
      → start_with sys server client p w ≡ returns (p', w')
      → Startable true p w
  unfolding start_with
  start_with-Startable (some s) client p p' w w' there given e = running s there
  start_with-Startable none none p p' w w' there given e = absurd (cc)
  start_with-Startable none (some c) p p' w w' there given e =
      let ((w₁, s), returned, same) =
        >>=_inv (sys.start_server c (server_args sys p) (setup_port sys p) w) _ e in
      started c w₁ s given returned

  start_if_needed-Startable :
      (start : Bool) (p p' : Pact Client Interaction Message) (w w' : W)
      → start_if_needed sys start p w ≡ returns (p', w')
      → Startable start p w
  unfolding start_if_needed
  start_if_needed-Startable false p p' w w' e = unasked refl
  start_if_needed-Startable true p p' w w' e =
      start_with-Startable p.server p.pact_client p p' w w' refl refl e

  abbrev and_server :
      Pact Client Interaction Message
      → Outcome (W × MockServer)
      → Outcome (Pact Client Interaction Message × W)
  and_server p r = r >>= λ (w', s). returns (record p { server = some s }, w')

  -- What `start_with` returns on a `Pact` that is startable.
  abbrev Started : Option MockServer → Option Client → Pact Client Interaction Message → W → Type 0
  Started server client p w =
      (p' : Pact Client Interaction Message) × (w' : W) × (start_with sys server client p w
        ≡ returns (p', w'))

  Startable-Started :
      (server : Option MockServer) (p : Pact Client Interaction Message) (w : W)
      → p.server ≡ server
      → Startable true p w
      → Started server p.pact_client p w
  unfolding start_with
  Startable-Started (some s) p w there h = (p, w, refl)
  Startable-Started none p w there (unasked e) = absurd (cc)
  Startable-Started none p w there (running s e) = absurd (cc)
  Startable-Started none p w there (started c w' s given returned) = (
    record p { server = some s },
    w',
    (λ i. start_with sys none (given i) p w) ∙ ap (and_server p) returned,
  )

  Startable-returns :
      (start : Bool) (p : Pact Client Interaction Message) (w : W)
      → Startable start p w
      → (p' : Pact Client Interaction Message) × (w' : W) × (start_if_needed sys start p w
          ≡ returns (p', w'))
  unfolding start_if_needed
  Startable-returns false p w h = (p, w, refl)
  Startable-returns true p w h = Startable-Started p.server p w refl h

  -- The `Pact` and the world behind the first part of `Setup`.
  abbrev pub readied : Pact Client Interaction Message → W → Pact Client Interaction Message × W
  readied p w =
      (setup_defaults sys (after_check (setup_logging p) w).0, (after_check (setup_logging p) w).1)

  -- A `Setup` that returns has passed the check, and ends with the start of the server.
  pub setup-readied :
      (start : Bool) (p : Pact Client Interaction Message) (w : W)
      {r : Pact Client Interaction Message × W}
      → setup sys start p w ≡ returns r
      → ToolsPass p w × (start_if_needed sys start (readied p w).0 (readied p w).1 ≡ returns r)
  unfolding setup setup_logging
  setup-readied start p w e =
      let ((p₁, w₁), e₁, e₂) = >>=_inv (check_tools sys (setup_logging p) w) _ e in
      let pass = pass_of (setup_logging p) p₁ w w₁ e₁ in
      let same = returns_inj (sym e₁ ∙ check_tools_returns (setup_logging p) w pass) in
      (
        (pass_logging p.log_filter p w).0 pass,
        (λ i. start_if_needed sys start (setup_defaults sys (sym same i).0) (sym same i).1) ∙ e₂,
      )

  -- Where the search for a port ends, `Setup` returns exactly if the tools are not to be checked or the
  -- check finds no fault, and no server is to be started, or there is one, or the start of one by the
  -- client returns.
  pub setup_returns_iff :
      (start : Bool) (p : Pact Client Interaction Message) (w : W)
      → ((p' : Pact Client Interaction Message) × (w' : W) × (setup sys start p w
            ≡ returns (p', w')))
        ↔ (ToolsPass p w × Startable start (readied p w).0 (readied p w).1)
  unfolding setup setup_logging
  setup_returns_iff start p w = (
    λ (p', w', e).
        let (pass, e') = setup-readied start p w e in
        (pass, start_if_needed-Startable start (readied p w).0 p' (readied p w).1 w' e'),
    λ (pass, startable).
        let (p', w', e₂) = Startable-returns start (readied p w).0 (readied p w).1 startable in
        let e₁ = check_tools_returns (setup_logging p) w ((pass_logging p.log_filter p w).1 pass) in
        (p', w', rw e₁ e₂),
  )

  -- A `Setup` that is to start no server returns if the tools pass.
  pub setup_only_returns :
      (p : Pact Client Interaction Message) (w : W)
      → ToolsPass p w
      → (p' : Pact Client Interaction Message) × (w' : W) × (setup sys false p w ≡ returns (p', w'))
  setup_only_returns p w pass = (setup_returns_iff false p w).1 (pass, unasked refl)
