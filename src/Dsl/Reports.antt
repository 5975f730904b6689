-- ===== src/Dsl/Reports.antt =====
-- dsl/pact.go `VerifyProvider` and `runTestCases`: what a verification reports to Go's `testing`.
pub mod Failures
use pact_go.Common.{
  ℕ, Text, bytes, text_eq, join, Error, Bool, true, false, ◌&&◌, ◌||◌, not, Option, none, some,
  List, [], ◌∷◌, ◌++◌, if◌then◌else◌,
}
use pact_go.Common.Lists.{is_nil}

-- The parts of types/provider_verifier_response.go that are reported.
pub record Example : Type 0 where
  pub description : Text
  pub full_description : Text
  pub status : Text
  pub consumer_name : Text
  pub provider_name : Text
  pub short_description : Text
  pub exception_message : Text

pub record Notice : Type 0 where
  pub notice_text : Text
  pub when : Text

pub record ProviderVerifierResponse : Type 0 where
  pub examples : List Example
  pub notices : List Notice

-- The calls of a `testing.T`; `run` is `t.Run` with what its function does. A call there is on the
-- `testing.T` that the function is given, or, with `outer`, on that of the test around it.
mutual
  pub data Call : Type 0 where
    log skip error : Text → Call
    run : Text → Calls → Call
    outer : Call → Call

  pub data Calls : Type 0 where
    end : Calls
    then : Call → Calls → Calls

unfoldable pub append_calls : Calls → Calls → Calls
append_calls end ds = ds
append_calls (Calls.then c cs) ds = Calls.then c (append_calls cs ds)

-- The first of more than one example names the test.
unfoldable pub generate_test_case_name : List Example → Text
generate_test_case_name (e ∷ f ∷ es) =
    bytes "Pact between "
    ++ e.consumer_name
    ++ bytes " and "
    ++ e.provider_name
    ++ bytes " "
    ++ e.short_description
generate_test_case_name _ = bytes "Running pact test"

-- The loops over the notices, for one value of `When`.
unfoldable pub log_notices : Text → List Notice → Calls
log_notices when [] = end
log_notices when (n ∷ ns) =
    let rest = log_notices when ns in
    if text_eq n.when when
    then Calls.then (outer (log (bytes "notice: " ++ n.notice_text))) rest
    else rest

abbrev pub is_pending : Example → Bool
is_pending e = text_eq e.status (bytes "pending")

abbrev pub is_passed : Example → Bool
is_passed e = text_eq e.status (bytes "passed")

-- The test of one example; `Skip` ends it.
unfoldable pub example_calls : Example → Calls
example_calls e = Calls.then (log e.full_description) (
    if is_passed e
    then end
    else if is_pending e
    then Calls.then (skip e.exception_message) end
    else Calls.then (error (e.full_description ++ 10 ∷ (e.exception_message ++ 10 ∷ []))) end)

abbrev pub example_name : Example → Text
example_name e = if is_pending e then bytes "Pending " ++ e.description else e.description

unfoldable pub run_examples : List Example → Calls
run_examples [] = end
run_examples (e ∷ es) =
    Calls.then (outer (run (example_name e) (example_calls e))) (run_examples es)

-- The function of the test of a pact.
unfoldable pub response_calls : ProviderVerifierResponse → Calls
response_calls r =
    append_calls (log_notices (bytes "before_verification") r.notices)
      (append_calls (run_examples r.examples) (log_notices (bytes "after_verification") r.notices))

unfoldable pub run_test_cases : List ProviderVerifierResponse → Calls
run_test_cases [] = end
run_test_cases (r ∷ rs) =
    Calls.then (run (generate_test_case_name r.examples) (response_calls r)) (run_test_cases rs)

-- The message of `VerifyProvider` when nothing was verified. The code gives it to `Errorf` or `Logf`
-- for a format; a percent sign in it is not looked into here.
unfoldable pub empty_message : Option Error → List Text → Text → Text
empty_message e tags broker_url =
    let message : Text = elim e [
      | none ↦ bytes "no pacts found to verify"
      | some _ ↦ bytes "error verifying the provider: see returned error for detail"
    ] in
    if is_nil tags
    then message
    else message
      ++ bytes ". Check the tags provided ("
      ++ join tags (bytes ",")
      ++ bytes ") for your broker ("
      ++ broker_url
      ++ bytes ") are correct"

-- `VerifyProvider`, behind `VerifyProviderRaw` with its results.
unfoldable pub verify_provider :
    Bool → List Text → Text → List ProviderVerifierResponse → Option Error → Calls
verify_provider fail_if_no_pacts_found tags broker_url [] e =
    let message = empty_message e tags broker_url in
    Calls.then (if fail_if_no_pacts_found then error message else log message) end
verify_provider fail_if_no_pacts_found tags broker_url (r ∷ rs) e = run_test_cases (r ∷ rs)

-- `VerifyMessageProvider`, behind `VerifyMessageProviderRaw` with its results.
unfoldable pub verify_message_provider : List ProviderVerifierResponse → Option Error → Calls
verify_message_provider rs e = run_test_cases rs

-- `VerifyMessageConsumer`, behind `VerifyMessageConsumerRaw` with its error.
unfoldable pub verify_message_consumer : Option Error → Calls
verify_message_consumer none = end
verify_message_consumer (some e) =
    Calls.then (error (bytes "VerifyMessageConsumer failed: " ++ e)) end
