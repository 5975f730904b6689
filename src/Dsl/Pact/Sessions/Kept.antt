-- ===== src/Dsl/Pact/Sessions/Kept.antt =====
-- What the calls of a consumer test on a `Pact` of dsl/pact.go leave alone.
use pact_go.Common.{
  Text, Error, Outcome, returns, Option, none, some, List, [], ◌∷◌, ◌≡◌, refl, ◌∙◌, Result, ok, err,
  inl, inr, Bool-cases, Result-cases, Option-cases, ◌||◌, is_empty,
}
use pact_go.Common.Lists.{is_nil}
use pact_go.Common.Runs.{run_calls}
use pact_go.Common.Steps.{unless_failed, run_steps}
use pact_go.Dsl.MockService.{MockService, Http, Reply, Body, call, sent}
use pact_go.Dsl.MockService
use pact_go.Dsl.Pact.{System}
use pact_go.Dsl.Pact.Verify.Order.{additions}
use pact_go.Dsl.Pact.Sessions.{
  Call, set_up, expect, note, check, write, tear_down, Session, Contract, service_at,
  promised_check, promised,
}

module _ {W A : Type 0} (part : W → A) where
  -- A step leaves a part of the world as it is.
  abbrev pub Keeps : (W → W × Option Error) → Type 0
  Keeps step = (w : W) → part (step w).0 ≡ part w

  abbrev AllKeep : List (W → W × Option Error) → Type 0
  AllKeep [] = Unit
  AllKeep (step ∷ steps) = Keeps step × AllKeep steps

  unless_failed-Keeps :
      (r : W × Option Error) (rest : W → W × Option Error)
      → Keeps rest
      → part (unless_failed r rest).0 ≡ part r.0
  unfolding unless_failed
  unless_failed-Keeps (w, none) rest h = h w
  unless_failed-Keeps (w, some e) rest h = refl

  run_steps-Keeps : (steps : List (W → W × Option Error)) → AllKeep steps → Keeps (run_steps steps)
  unfolding run_steps
  run_steps-Keeps [] h w = refl
  run_steps-Keeps (step ∷ steps) h w =
      unless_failed-Keeps (step w) (run_steps steps) (run_steps-Keeps steps h.1) ∙ h.0 w

  -- No `Teardown`, and no integration test that changes the part.
  abbrev pub IsQuiet : {Interaction Message : Type 0} → Call W Interaction Message → Type 0
  IsQuiet (set_up start) = Unit
  IsQuiet (expect i) = Unit
  IsQuiet (note m) = Unit
  IsQuiet (check test) = Keeps test
  IsQuiet write = Unit
  IsQuiet tear_down = ⊥

  abbrev pub AreQuiet : {Interaction Message : Type 0} → List (Call W Interaction Message) → Type 0
  AreQuiet [] = Unit
  AreQuiet (c ∷ cs) = IsQuiet c × AreQuiet cs

  module _ {Interaction : Type 0} (http : Http W Interaction)
      (send_keeps : (method url : Text) (body : Option Text) (w : W)
        → part (http.send method url body w).0 ≡ part w) where
    sent_keeps : (r : W × Result Reply) → part (sent r).0 ≡ part r.0
    unfolding sent
    sent_keeps (w, ok res) = refl
    sent_keeps (w, err e) = refl

    call-Keeps :
        (method url : Text) (content : Body Interaction) → Keeps (call http method url content)
    unfolding call
    call-Keeps method url content w = elim (Result-cases (http.marshal content)) [
      | inl (e, failed) ↦ rw (failed, call)
      | inr (body, encoded) ↦ elim (Option-cases (http.new_request method url)) [
        | inr (e, refused) ↦ rw (encoded, call, refused)
        | inl well_formed ↦
            rw (encoded, call, well_formed)
              (sent_keeps (http.send method url _ w) ∙ send_keeps method url _ w)
      ]
    ]

    additions-AllKeep :
        (m : MockService) (is : List Interaction) (rest : List (W → W × Option Error))
        → AllKeep rest
        → AllKeep (additions http m is rest)
    unfolding additions MockService.add_interaction
    additions-AllKeep m [] rest h = h
    additions-AllKeep m (i ∷ is) rest h = (call-Keeps _ _ _, additions-AllKeep m is rest h)

    write_pact-Keeps : (m : MockService) → Keeps (MockService.write_pact http m)
    unfolding MockService.write_pact
    write_pact-Keeps m w = elim (Bool-cases (is_empty m.consumer || is_empty m.provider)) [
      | inl unnamed ↦ rw unnamed
      | inr named ↦ rw named (call-Keeps _ _ _ w)
    ]

    module _ {Client Message : Type 0} (sys : System W Client) (contract : Contract Client) where
      -- A call that is no `Teardown` returns; it leaves the server and that part of the world.
      abbrev pub Returns :
          {R : Type 0}
          → Session Interaction Message
          → W
          → Outcome (Session Interaction Message × W × R)
          → Type 0
      Returns {R} s w o =
          (s' : Session Interaction Message) × (w' : W) × (r : R) × (o ≡ returns (s', w', r))
          × (s'.server ≡ s.server)
          × (part w' ≡ part w)

      check-Returns :
          (test : W → W × Option Error) (s : Session Interaction Message) (w : W)
          → Keeps test
          → Returns s w (returns (promised_check sys http contract test s w))
      unfolding MockService.verify MockService.delete_interactions
      check-Returns test s w h = elim (Bool-cases (is_nil s.pending)) [
        | inl empty ↦ rw empty (_, _, _, refl, refl, refl)
        | inr given ↦
            let m = service_at contract s.server [] in
            let steps = additions http m s.pending (test ∷ MockService.verify http m ∷ []) in
            rw given (
              _,
              _,
              _,
              refl,
              refl,
              call-Keeps _ _ _ (run_steps steps w).0
                  ∙ run_steps-Keeps steps
                      (additions-AllKeep m s.pending (test ∷ MockService.verify http m ∷ [])
                        (h, (call-Keeps _ _ _, tt)))
                      w,
            )
      ]

      promised-Returns :
          (c : Call W Interaction Message) (s : Session Interaction Message) (w : W)
          → IsQuiet c
          → Returns s w (promised sys http contract c s w)
      unfolding promised
      promised-Returns (set_up start) s w h = (_, _, _, refl, refl, refl)
      promised-Returns (expect i) s w h = (_, _, _, refl, refl, refl)
      promised-Returns (note m) s w h = (_, _, _, refl, refl, refl)
      promised-Returns (check test) s w h = check-Returns test s w h
      promised-Returns write s w h =
          (_, _, _, refl, refl, write_pact-Keeps (service_at contract s.server contract.mode) w)
      promised-Returns tear_down s w h = absurd h

      pub promised_calls-Returns :
          (cs : List (Call W Interaction Message)) (s : Session Interaction Message) (w : W)
          → AreQuiet cs
          → Returns s w (run_calls (promised sys http contract) cs s w)
      unfolding run_calls
      promised_calls-Returns [] s w h = (_, _, _, refl, refl, refl)
      promised_calls-Returns (c ∷ cs) s w h =
          let (s₁, w₁, e, one, server₁, part₁) = promised-Returns c s w h.0 in
          let (s₂, w₂, es, rest, server₂, part₂) = promised_calls-Returns cs s₁ w₁ h.1 in
          (s₂, w₂, e ∷ es, rw (one, rest), server₂ ∙ server₁, part₂ ∙ part₁)
