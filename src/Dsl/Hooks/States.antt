-- ===== src/Dsl/Hooks/States.antt =====
-- The loop over the provider states of a setup request.
use pact_go.Common.{
  ℕ, Text, Error, none, some, List, [], ◌∷◌, ◌≡◌, ◌⊎◌, inl, inr, refl, Option-cases,
}
use pact_go.Http.{Hook, StateHandlers}
use pact_go.Dsl.Hooks.{find_handler, serve_states}

module _ {W : Type 0} (handlers : StateHandlers W) where
  -- The handlers of these states, in this order, lead from one world to another with no error. A
  -- state with no handler is passed over.
  pub data RunsAll : List Text → W → W → Type 0 where
    end : {w : W} → RunsAll [] w w
    skip :
        {state : Text} {states : List Text} {w w' : W}
        → find_handler state handlers ≡ none
        → RunsAll states w w'
        → RunsAll (state ∷ states) w w'
    run :
        {state : Text} {states : List Text} {w w₁ w' : W} {sf : Hook W}
        → find_handler state handlers ≡ some sf
        → sf w ≡ (w₁, none)
        → RunsAll states w₁ w'
        → RunsAll (state ∷ states) w w'

  -- The handlers lead to a world at which one of them fails, and no later one is run.
  pub data StopsAt : List Text → W → W → Type 0 where
    fails :
        {state : Text} {states : List Text} {w w' : W} {sf : Hook W} {e : Error}
        → find_handler state handlers ≡ some sf
        → sf w ≡ (w', some e)
        → StopsAt (state ∷ states) w w'
    skip_to :
        {state : Text} {states : List Text} {w w' : W}
        → find_handler state handlers ≡ none
        → StopsAt states w w'
        → StopsAt (state ∷ states) w w'
    run_to :
        {state : Text} {states : List Text} {w w₁ w' : W} {sf : Hook W}
        → find_handler state handlers ≡ some sf
        → sf w ≡ (w₁, none)
        → StopsAt states w₁ w'
        → StopsAt (state ∷ states) w w'

  module _ (write_header : ℕ → W → W) where
    abbrev pub Served : List Text → W → W → Type 0
    Served states w out =
        ((w' : W) × RunsAll states w w' × (out ≡ write_header 200 w'))
        ⊎ ((w' : W) × StopsAt states w w' × (out ≡ write_header 500 w'))

    Served-skip :
        {state : Text} {states : List Text} {w out : W}
        → find_handler state handlers ≡ none
        → Served states w out
        → Served (state ∷ states) w out
    Served-skip missing (inl (w', all, e)) = inl (w', skip missing all, e)
    Served-skip missing (inr (w', stop, e)) = inr (w', skip_to missing stop, e)

    Served-run :
        {state : Text} {states : List Text} {w w₁ out : W} {sf : Hook W}
        → find_handler state handlers ≡ some sf
        → sf w ≡ (w₁, none)
        → Served states w₁ out
        → Served (state ∷ states) w out
    Served-run found ran (inl (w', all, e)) = inl (w', run found ran all, e)
    Served-run found ran (inr (w', stop, e)) = inr (w', run_to found ran stop, e)

    -- A setup request runs the handlers of its states in their order, passing over a state with no
    -- handler. If none fails the answer is status 200; otherwise it is status 500, written where
    -- the first one failed, and no later handler is run.
    pub serve_states-Served :
        (states : List Text) (w : W) → Served states w (serve_states write_header handlers states w)
    unfolding serve_states
    serve_states-Served [] w = inl (w, end, refl)
    serve_states-Served (state ∷ states) w = elim (Option-cases (find_handler state handlers)) [
      | inl missing ↦
          rw (missing, serve_states) (Served-skip missing (serve_states-Served states w))
      | inr (sf, found) ↦
          rw (found, serve_states)
            (elim (Option-cases (sf w).1) [
              | inl fine ↦
                  rw fine (
                    Served-run found (λ i. ((sf w).0, fine i))
                      (serve_states-Served states (sf w).0))
              | inr (e, failed) ↦
                  rw failed (inr ((sf w).0, fails found (λ i. ((sf w).0, failed i)), refl))
            ])
    ]
