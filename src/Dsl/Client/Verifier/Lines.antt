-- ===== src/Dsl/Client/Verifier/Lines.antt =====
-- What dsl/client.go `VerifyProvider` makes of the lines of the verifier.
use pact_go.Common.{
  Text, trim_space, Error, Option, none, some, List, [], ◌∷◌, ◌++◌, append_assoc, append-nil, ◌≡◌,
  ◌↔◌, refl, sym, ◌∙◌, inl, inr, Bool-cases, if◌then◌else◌,
}
use pact_go.Common.Lists.{All}
use pact_go.Dsl.Client.Verifier.{is_result, last_error, collect}

-- The lines that hold a result, without the spaces around them.
unfoldable pub result_lines : List Text → List Text
result_lines [] = []
result_lines (line ∷ lines) =
    let rest = result_lines lines in
    let v = trim_space line in if is_result v then v ∷ rest else rest

module _ {Response : Type 0} (decode : Text → Response → Response × Option Error) where
  -- Each text decoded into the response of the one before.
  unfoldable pub decode_all : List Text → Response → List (Response × Option Error)
  decode_all [] response = []
  decode_all (v ∷ vs) response = decode v response ∷ decode_all vs (decode v response).0

  unfoldable pub responses : List (Response × Option Error) → List Response
  responses [] = []
  responses (r ∷ rs) = r.0 ∷ responses rs

  -- The last error of the list, or the given one.
  unfoldable pub final_error : List (Response × Option Error) → Option Error → Option Error
  final_error [] e = e
  final_error (r ∷ rs) e = final_error rs (last_error r.1 e)

  -- The responses are those of the result lines, in their order, each decoded into the one before;
  -- the error is the last one of decoding, or else that of the process.
  pub collect-decode_all :
      (lines : List Text) (verification : Response) (response : List Response) (e : Option Error)
      → collect decode lines verification response e ≡ (
        response ++ responses (decode_all (result_lines lines) verification),
        final_error (decode_all (result_lines lines) verification) e,
      )
  unfolding collect result_lines decode_all responses final_error
  collect-decode_all [] verification response e = λ i. (sym (append-nil response) i, e)
  collect-decode_all (line ∷ lines) verification response e =
      elim (Bool-cases (is_result (trim_space line))) [
        | inl holds ↦
            let (verification', d) = decode (trim_space line) verification in
            rw (holds, collect, result_lines)
              (collect-decode_all lines verification' (response ++ verification' ∷ [])
                  (last_error d e)
                ∙ (λ i. (
                  append_assoc response (verification' ∷ [])
                      (responses (decode_all (result_lines lines) verification')) i,
                  final_error (decode_all (result_lines lines) verification') (last_error d e),
                )))
        | inr not_held ↦
            rw (not_held, collect, result_lines) (collect-decode_all lines verification response e)
      ]

  last_error-none : (d e : Option Error) → (last_error d e ≡ none) ↔ ((e ≡ none) × (d ≡ none))
  last_error-none none e = (λ q. (q, refl), λ q. q.0)
  last_error-none (some x) e = (λ q. absurd (cc), λ q. absurd (cc))

  pub final_error-none :
      (rs : List (Response × Option Error)) (e : Option Error)
      → (final_error rs e ≡ none)
        ↔ ((e ≡ none) × All (λ (r : Response × Option Error). r.1 ≡ none) rs)
  unfolding final_error
  final_error-none [] e = (λ q. (q, tt), λ q. q.0)
  final_error-none (r ∷ rs) e = (
    λ q.
        let (h, all) = (final_error-none rs (last_error r.1 e)).0 q in
        let (p, d) = (last_error-none r.1 e).0 h in (p, (d, all)),
    λ (p, (d, all)).
        (final_error-none rs (last_error r.1 e)).1 ((last_error-none r.1 e).1 (p, d), all),
  )
