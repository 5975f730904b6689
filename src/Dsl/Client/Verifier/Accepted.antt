-- ===== src/Dsl/Client/Verifier/Accepted.antt =====
-- When `VerifyProvider` of dsl/client.go returns no error.
use pact_go.Common.{Text, Error, Result, Option, none, some, List, [], ◌≡◌, ◌↔◌, refl, sym, ap, ◌∙◌}
use pact_go.Common.Lists.{All}
use pact_go.Types.Selector.{ConsumerVersionSelector}
use pact_go.Types.VerifyRequest.{VerifyRequest, validate}
use pact_go.Types.VerifyRequest.Complete.{IsComplete}
use pact_go.Types.VerifyRequest.CommandLine.{Accepts, verify_validate_iff}
use pact_go.Client.ServiceManager.{Cmd, command}
use pact_go.Client.Services.{new_verification_service}
use pact_go.Dsl.Client.{PactClient, Host, wait_for_port, get_network_interface}
use pact_go.Dsl.Client.Address.{ParsedUrl, get_port, get_address}
use pact_go.Dsl.Client.Pipes.{launch}
use pact_go.Dsl.Client.Verifier.{
  collect, report_error, api_message, Scanner, with_newlines, read_results, run_verifier,
  verify_valid, verify_provider,
}
use pact_go.Dsl.Client.Verifier.Lines.{
  result_lines, decode_all, responses, collect-decode_all, final_error-none,
}

report_error-none :
    (std_err : Text) (lines : List Text) (e : Option Error)
    → report_error std_err lines e ≡ none
    → e ≡ none
report_error-none std_err lines none h = refl
report_error-none std_err lines (some x) h = absurd (cc)

module _ {W Response : Type 0} (host : Host W) (scanner : Scanner W) (zero_response : Response)
    (decode : Text → Response → Response × Option Error) where
  -- What the code decodes of the output of the command.
  abbrev pub decoded : Cmd → W → List (Response × Option Error)
  decoded cmd w = decode_all decode (result_lines (scanner.scan_stdout cmd w)) zero_response

  -- The command was launched and ended with no error, and so did the decoding of each result line.
  pub record Reads (cmd : Cmd) (w w' : W) (response : List Response) : Type 0 where
    pub running : W
    pub launched : launch host cmd w ≡ (running, none)
    pub ended : host.wait cmd running ≡ (w', none)
    pub read : All (λ (r : Response × Option Error). r.1 ≡ none) (decoded cmd w')
    pub result : response ≡ responses decode (decoded cmd w')

  read_results_inv :
      (cmd : Cmd) (r : W × Option Error) (w w' : W) (response : List Response)
      → launch host cmd w ≡ r
      → read_results host scanner zero_response decode cmd r ≡ (w', response, none)
      → Reads cmd w w' response
  unfolding read_results
  read_results_inv cmd (w₁, some e) w w' response launched q = absurd (cc)
  read_results_inv cmd (w₁, none) w w' response launched q =
      let w₂ = (host.wait cmd w₁).0 in
      let lines = scanner.scan_stdout cmd w₂ in
      let whole = collect-decode_all decode lines zero_response [] (host.wait cmd w₁).1 in
      let same : w₂ ≡ w' = λ i. (q i).0 in
      let failed = report_error-none _ lines _ (λ i. (q i).2) in
      let (fine, all) =
        (final_error-none decode (decoded cmd w₂) (host.wait cmd w₁).1).0
          (sym (λ i. (whole i).1) ∙ failed) in
      record {
        running = w₁;
        launched = launched;
        ended = λ i. (same i, fine i);
        read = rw same at all;
        result =
            sym (λ i. (q i).1)
            ∙ (λ i. (whole i).0)
            ∙ ap (λ w. responses decode (decoded cmd w)) same;
      }

  -- Behind the end of the process.
  abbrev finish : Cmd → W × Option Error → W × List Response × Option Error
  finish cmd (w', e) =
      let lines = scanner.scan_stdout cmd w' in
      let (response, e') = collect decode lines zero_response [] e in
      (w', response, report_error (with_newlines (scanner.scan_stderr cmd w')) lines e')

  Reads-read_results :
      (cmd : Cmd) (w w' : W) (response : List Response)
      → Reads cmd w w' response
      → read_results host scanner zero_response decode cmd (launch host cmd w)
        ≡ (w', response, none)
  unfolding read_results
  Reads-read_results cmd w w' response r =
      ap (read_results host scanner zero_response decode cmd) r.launched
      ∙ ap (finish cmd) r.ended
      ∙ (rw
          (
            collect-decode_all decode (scanner.scan_stdout cmd w') zero_response [] none,
            (final_error-none decode (decoded cmd w') none).1 (refl, r.read),
          )
          (λ i. (w', sym r.result i, none)))

-- The command of the verifier, with the arguments of a request.
abbrev pub verifier : {W : Type 0} → Host W → PactClient → List Text → Cmd
verifier host p args =
    command host.environ (new_verification_service host.environ args p.verification_svc_manager)

module _ {W Response : Type 0} (host : Host W) (scanner : Scanner W) (zero_response : Response)
    (decode : Text → Response → Response × Option Error) where
  run_verifier_inv :
      (p p' : PactClient) (args : List Text) (r : W × Option Error) (w' : W)
      (response : List Response)
      → run_verifier host scanner zero_response decode p args r ≡ (p', w', response, none)
      → (w₁ : W) × (r ≡ (w₁, none))
        × Reads host scanner zero_response decode (verifier host p args) w₁ w' response
        × (p' ≡ record p {
          verification_svc_manager =
              new_verification_service host.environ args p.verification_svc_manager;
        })
  unfolding run_verifier
  run_verifier_inv p p' args (w, some e) w' response q = absurd (cc)
  run_verifier_inv p p' args (w, none) w' response q = (
    w,
    refl,
    read_results_inv host scanner zero_response decode (verifier host p args) _ w w' response refl
        (λ i. ((q i).1, (q i).2, (q i).3)),
    sym (λ i. (q i).0),
  )

module _ {W Time TlsConfig Response : Type 0} (host : Host W) (scanner : Scanner W)
    (zero_response : Response) (decode : Text → Response → Response × Option Error)
    (parse : Text → Result ParsedUrl) (rfc3339 : Time → Text)
    (marshal : ConsumerVersionSelector → Result Text) where
  -- The wait for the provider, at the host and port of its URL.
  abbrev pub wait_for_provider : PactClient → VerifyRequest W Time TlsConfig → W → W × Option Error
  wait_for_provider p request w =
      let port = get_port parse request.provider_base_url in
      wait_for_port host port (get_network_interface p)
        (get_address parse request.provider_base_url) p.timeout_duration (api_message port) w

  pub record Verifies (p : PactClient) (request : VerifyRequest W Time TlsConfig) (w : W)
      (p' : PactClient) (w' : W) (response : List Response) : Type 0 where
    pub args : List Text
    pub complete : IsComplete request
    pub accepts : Accepts rfc3339 marshal request args
    pub reached : W
    pub up : wait_for_provider p request w ≡ (reached, none)
    pub reads : Reads host scanner zero_response decode (verifier host p args) reached w' response
    pub left : p' ≡ record p {
      verification_svc_manager =
          new_verification_service host.environ args p.verification_svc_manager;
    }

  -- `Validate` changes only `Args`.
  validate_keeps :
      (request v : VerifyRequest W Time TlsConfig) (e : Option Error)
      → validate rfc3339 marshal request ≡ (v, e)
      → record request { args = v.args } ≡ v
  unfolding validate
  validate_keeps request v e q = sym (λ i. record request { args = (q i).0.args }) ∙ (λ i. (q i).0)

  verify_valid_inv :
      (p p' : PactClient) (request : VerifyRequest W Time TlsConfig)
      (v : VerifyRequest W Time TlsConfig × Option Error) (w w' : W) (response : List Response)
      → validate rfc3339 marshal request ≡ v
      → verify_valid host scanner zero_response decode parse rfc3339 marshal p v w
        ≡ (p', w', response, none)
      → Verifies p request w p' w' response
  unfolding verify_valid
  verify_valid_inv p p' request (v, some e) w w' response valid q = absurd (cc)
  verify_valid_inv p p' request (v, none) w w' response valid q =
      let kept = validate_keeps request v none valid in
      let (complete, accepts) =
        (verify_validate_iff rfc3339 marshal request v.args).0
          (valid ∙ (λ i. (sym kept i, none))) in
      let (w₁, up, reads, left) =
        run_verifier_inv host scanner zero_response decode p p' v.args _ w' response q in
      record {
        args = v.args;
        complete = complete;
        accepts = accepts;
        reached = w₁;
        up = (λ i. wait_for_provider p (kept i) w) ∙ up;
        reads = reads;
        left = left;
      }

  verifies :
      (p p' : PactClient) (request : VerifyRequest W Time TlsConfig) (w w' : W)
      (response : List Response)
      → Verifies p request w p' w' response
      → verify_provider host scanner zero_response decode parse rfc3339 marshal p request w
        ≡ (p', w', response, none)
  unfolding verify_provider verify_valid run_verifier
  verifies p p' request w w' response v =
      ap (λ x. verify_valid host scanner zero_response decode parse rfc3339 marshal p x w)
        ((verify_validate_iff rfc3339 marshal request v.args).1 (v.complete, v.accepts))
      ∙ ap (run_verifier host scanner zero_response decode p v.args) v.up
      ∙ (λ i.
          let read =
            Reads-read_results host scanner zero_response decode (verifier host p v.args) v.reached
              w' response v.reads in
          (sym v.left i, (read i).0, (read i).1, (read i).2))

  pub verify_provider_iff :
      (p p' : PactClient) (request : VerifyRequest W Time TlsConfig) (w w' : W)
      (response : List Response)
      → (verify_provider host scanner zero_response decode parse rfc3339 marshal p request w
          ≡ (p', w', response, none))
        ↔ Verifies p request w p' w' response
  unfolding verify_provider
  verify_provider_iff p p' request w w' response = (
    λ q. verify_valid_inv p p' request _ w w' response refl q,
    verifies p p' request w w' response,
  )
