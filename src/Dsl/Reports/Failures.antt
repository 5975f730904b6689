-- ===== src/Dsl/Reports/Failures.antt =====
-- Which tests of dsl/pact.go `VerifyProvider` fail.
use pact_go.Common.{
  Text, bytes, Error, Bool, true, false, ◌&&◌, ◌||◌, not, Option, List, [], ◌∷◌, ◌≡◌, ◌⊎◌, inl, inr,
  ◌↔◌, refl, sym, ◌∙◌, arith,
}
use mathlib.Core.Bool.{or_assoc}
use pact_go.Dsl.Reports.{
  Example, Notice, ProviderVerifierResponse, Call, log, skip, error, run, outer, Calls, end,
  append_calls, log_notices, is_pending, is_passed, example_calls, run_examples, response_calls,
  run_test_cases, verify_provider,
}

-- A test fails with an error of its own, or of a test that is run on its `testing.T`, be that by its
-- own function or by that of such a test. `Skip` is no failure.
unfoldable mutual
  pub call_fails : Call → Bool
  call_fails (log s) = false
  call_fails (skip s) = false
  call_fails (error s) = true
  call_fails (run name cs) = fails cs || outer_fails cs
  call_fails (outer c) = false

  pub fails : Calls → Bool
  fails end = false
  fails (Calls.then c cs) = call_fails c || fails cs

  -- The test around one fails by what that one does.
  pub outer_call_fails : Call → Bool
  outer_call_fails (outer c) = call_fails c
  outer_call_fails _ = false

  pub outer_fails : Calls → Bool
  outer_fails end = false
  outer_fails (Calls.then c cs) = outer_call_fails c || outer_fails cs

-- An example that neither passed nor is pending.
abbrev pub is_broken : Example → Bool
is_broken e = not (is_passed e) && not (is_pending e)

abbrev pub any_broken : List Example → Bool
any_broken [] = false
any_broken (e ∷ es) = is_broken e || any_broken es

abbrev pub some_broken : List ProviderVerifierResponse → Bool
some_broken [] = false
some_broken (r ∷ rs) = any_broken r.examples || some_broken rs

append_calls-fails : (cs ds : Calls) → fails (append_calls cs ds) ≡ (fails cs || fails ds)
unfolding append_calls fails
append_calls-fails end ds = refl
append_calls-fails (Calls.then c cs) ds =
    rw (append_calls-fails cs ds) (sym (or_assoc (call_fails c) (fails cs) (fails ds)))

append_calls-outer_fails :
    (cs ds : Calls) → outer_fails (append_calls cs ds) ≡ (outer_fails cs || outer_fails ds)
unfolding append_calls outer_fails
append_calls-outer_fails end ds = refl
append_calls-outer_fails (Calls.then c cs) ds =
    rw (append_calls-outer_fails cs ds)
      (sym (or_assoc (outer_call_fails c) (outer_fails cs) (outer_fails ds)))

log_notices-pass :
    (when : Text) (ns : List Notice)
    → (fails (log_notices when ns) ≡ false) × (outer_fails (log_notices when ns) ≡ false)
unfolding log_notices fails
log_notices-pass when [] = (refl, refl)
log_notices-pass when (n ∷ ns) =
    let (a, b) = log_notices-pass when ns in (ground (arith, a), ground (arith, b))

example_calls-fails :
    (e : Example) → (fails (example_calls e) || outer_fails (example_calls e)) ≡ is_broken e
unfolding example_calls fails
example_calls-fails e = ground arith

run_examples-fails :
    (es : List Example)
    → (fails (run_examples es) ≡ false) × (outer_fails (run_examples es) ≡ any_broken es)
unfolding run_examples fails
run_examples-fails [] = (refl, refl)
run_examples-fails (e ∷ es) =
    let (a, b) = run_examples-fails es in (a, rw (example_calls-fails e, b))

response_calls-fails :
    (r : ProviderVerifierResponse)
    → (fails (response_calls r) ≡ false) × (outer_fails (response_calls r) ≡ any_broken r.examples)
unfolding response_calls
response_calls-fails r =
    let before = log_notices (bytes "before_verification") r.notices in
    let tests = run_examples r.examples in
    let after = log_notices (bytes "after_verification") r.notices in
    let (a, b) = log_notices-pass (bytes "before_verification") r.notices in
    let (c, d) = run_examples-fails r.examples in
    let (e, f) = log_notices-pass (bytes "after_verification") r.notices in
    (
      ground (
        arith,
        append_calls-fails before (append_calls tests after),
        append_calls-fails tests after,
        a,
        c,
        e,
      ),
      ground (
        arith,
        append_calls-outer_fails before (append_calls tests after),
        append_calls-outer_fails tests after,
        b,
        d,
        f,
      ),
    )

run_test_cases-fails :
    (rs : List ProviderVerifierResponse) → fails (run_test_cases rs) ≡ some_broken rs
unfolding run_test_cases fails
run_test_cases-fails [] = refl
run_test_cases-fails (r ∷ rs) =
    let (a, b) = response_calls-fails r in rw (a, b, run_test_cases-fails rs)

-- A test that calls `VerifyProvider` fails there exactly if an example of the results neither passed
-- nor is pending, or if there are no results and the request asks to fail then; the error that is
-- returned has no part in it. The test that is run for a pact does not fail in any case.
pub fails-verify_provider :
    (fail_if_no_pacts_found : Bool) (tags : List Text) (broker_url : Text)
    (rs : List ProviderVerifierResponse) (e : Option Error)
    → ((fails (verify_provider fail_if_no_pacts_found tags broker_url rs e) ≡ true)
        ↔ (((rs ≡ []) × (fail_if_no_pacts_found ≡ true)) ⊎ (some_broken rs ≡ true)))
      × ((r : ProviderVerifierResponse) → fails (response_calls r) ≡ false)
unfolding verify_provider fails
fails-verify_provider true tags broker_url [] e =
    ((λ h. inl (refl, refl), λ h. refl), λ r. (response_calls-fails r).0)
fails-verify_provider false tags broker_url [] e = (
  (λ h. absurd (cc), λ h. elim h [ inl (a, b) ↦ b | inr b ↦ b ]),
  λ r. (response_calls-fails r).0,
)
fails-verify_provider flag tags broker_url (r ∷ rs) e = (
  (
    λ h. inr (sym (run_test_cases-fails (r ∷ rs)) ∙ h),
    λ h. elim h [ inl (a, b) ↦ absurd (cc) | inr b ↦ run_test_cases-fails (r ∷ rs) ∙ b ],
  ),
  λ r. (response_calls-fails r).0,
)
