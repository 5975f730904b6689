-- ===== src/Common/Runs.antt =====
-- Sequences of calls on a state, in the order of one caller, with the results of the calls.
use mathlib.Core.List.{List, [], ◌∷◌}
use mathlib.Core.Path.{◌≡◌, refl}
use pact_go.Common.Results.{Outcome, returns, panics, ◌>>=◌}

module _ {C S W R : Type 0} (call : C → S → W → Outcome (S × W × R)) where
  unfoldable pub run_calls : List C → S → W → Outcome (S × W × List R)
  run_calls [] s w = returns (s, w, [])
  run_calls (c ∷ cs) s w = do
    (s', w', r) ← call c s w
    (s'', w'', rs) ← run_calls cs s' w'
    returns (s'', w'', r ∷ rs)

-- What an outcome for one state is for the state that stands for it.
abbrev pub at_state : {P S W R : Type 0} → (S → P) → Outcome (S × W × R) → Outcome (P × W × R)
at_state f o = o >>= λ (s, w, r). returns (f s, w, r)

module _ {C P S W R : Type 0} (call : C → P → W → Outcome (P × W × R))
    (promised : C → S → W → Outcome (S × W × R)) (f : S → P) where
  result_kept :
      (r : R) (o : Outcome (S × W × List R))
      → (let o' : Outcome (P × W × List R) =
            at_state f o >>= λ (p, w, rs). returns (p, w, r ∷ rs) in
          o')
        ≡ at_state f (o >>= λ (s, w, rs). returns (s, w, r ∷ rs))
  result_kept r (returns x) = refl
  result_kept r panics = refl

  behind_call :
      (cs : List C) (o : Outcome (S × W × R))
      → ((s : S) (w : W) → run_calls call cs (f s) w ≡ at_state f (run_calls promised cs s w))
      → (let o' : Outcome (P × W × List R) = at_state f o >>= λ (p, w, r).
            run_calls call cs p w >>= λ (p', w', rs). returns (p', w', r ∷ rs) in
          o')
        ≡ at_state f (
            o >>= λ (s, w, r).
            run_calls promised cs s w >>= λ (s', w', rs). returns (s', w', r ∷ rs))
  behind_call cs (returns (s, w, r)) rest =
      rw (rest s w) (result_kept r (run_calls promised cs s w))
  behind_call cs panics rest = refl

  -- Calls that do what is promised, one by one, do so in any sequence.
  pub run_calls-promised :
      ((c : C) (s : S) (w : W) → call c (f s) w ≡ at_state f (promised c s w))
      → (cs : List C) (s : S) (w : W)
      → run_calls call cs (f s) w ≡ at_state f (run_calls promised cs s w)
  unfolding run_calls
  run_calls-promised one [] s w = refl
  run_calls-promised one (c ∷ cs) s w =
      rw (one c s w) (behind_call cs (promised c s w) (run_calls-promised one cs))
