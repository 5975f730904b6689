-- ===== src/Dsl/Client/Verifier.antt =====
-- dsl/client.go `VerifyProvider`: the run of the provider verifier, and what is read of its output.
pub mod Lines
pub mod Accepted
use pact_go.Common.{
  ℕ, ℤ, Text, bytes, is_empty, has_prefix, trim_space, join, Error, Result, ok, err, Bool, true,
  false, not, ◌&&◌, Option, none, some, List, [], ◌∷◌, ◌++◌, if◌then◌else◌,
}
use pact_go.Types.Selector.{ConsumerVersionSelector}
use pact_go.Types.VerifyRequest.{VerifyRequest, validate}
use pact_go.Client.ServiceManager.{ServiceManager, Cmd, command}
use pact_go.Client.Services.{new_verification_service}
use pact_go.Dsl.Client.{PactClient, Host, wait_for_port, get_network_interface, show_int}
use pact_go.Dsl.Client.Address.{ParsedUrl, get_port, get_address}
use pact_go.Dsl.Client.Pipes.{launch, separated}

-- `v != "" && strings.Index(v, "INFO") != 0`
unfoldable pub is_result : Text → Bool
is_result v = not (is_empty v) && not (has_prefix v (bytes "INFO"))

-- `if dErr != nil { err = dErr }`
abbrev pub last_error : Option Error → Option Error → Option Error
last_error none e = e
last_error (some d) e = some d

-- `decode` is `json.Unmarshal` into a response: it writes the fields that the text has, and keeps the
-- others.
module _ {Response : Type 0} (decode : Text → Response → Response × Option Error) where
  -- The loop over the lines, with the variables that it changes: the response that is reused, those
  -- that are collected, and the error.
  unfoldable pub collect :
      List Text → Response → List Response → Option Error → List Response × Option Error
  collect [] verification response e = (response, e)
  collect (line ∷ lines) verification response e =
      let v = trim_space line in
      let (verification', d) = decode v verification in
      elim (is_result v) [
        | true ↦ collect lines verification' (response ++ verification' ∷ []) (last_error d e)
        | false ↦ collect lines verification response e
      ]

abbrev pub report_error : Text → List Text → Option Error → Option Error
report_error std_err lines none = none
report_error std_err lines (some e) =
    some (separated (bytes "error verifying provider: ") e std_err (join lines (bytes "\n")))

abbrev pub api_message : ℤ → Text
api_message port =
    bytes "Timed out waiting for Provider API to start on port "
    ++ show_int port
    ++ bytes " - are you sure it's running?"

-- `scan_stdout` and `scan_stderr` give the lines that the two scanners have read at their ends. The
-- code waits for the process and then for the scanners.
pub record Scanner (W : Type 0) : Type 0 where
  pub scan_stdout : Cmd → W → List Text
  pub scan_stderr : Cmd → W → List Text

-- `fmt.Sprintf("%s\n", line)` for each line
unfoldable pub with_newlines : List Text → Text
with_newlines [] = []
with_newlines (line ∷ lines) = line ++ 10 ∷ with_newlines lines

module _ {W Response : Type 0} (host : Host W) (scanner : Scanner W) (zero_response : Response)
    (decode : Text → Response → Response × Option Error) where
  -- Behind the start of the process.
  unfoldable pub read_results : Cmd → W × Option Error → W × List Response × Option Error
  read_results cmd (w, some e) = (w, [], some e)
  read_results cmd (w, none) =
      let (w', e) = host.wait cmd w in
      let lines = scanner.scan_stdout cmd w' in
      let (response, e') = collect decode lines zero_response [] e in
      (w', response, report_error (with_newlines (scanner.scan_stderr cmd w')) lines e')

  -- Behind the wait for the provider.
  unfoldable pub run_verifier :
      PactClient → List Text → W × Option Error → PactClient × W × List Response × Option Error
  run_verifier p args (w, some e) = (p, w, [], some e)
  run_verifier p args (w, none) =
      let svc = new_verification_service host.environ args p.verification_svc_manager in
      let cmd = command host.environ svc in
      let (w', response, e) = read_results cmd (launch host cmd w) in
      (record p { verification_svc_manager = svc }, w', response, e)

module _ {W Time TlsConfig Response : Type 0} (host : Host W) (scanner : Scanner W)
    (zero_response : Response) (decode : Text → Response → Response × Option Error)
    (parse : Text → Result ParsedUrl) (rfc3339 : Time → Text)
    (marshal : ConsumerVersionSelector → Result Text) where
  -- Behind the validation of the request.
  unfoldable pub verify_valid :
      PactClient
      → VerifyRequest W Time TlsConfig × Option Error
      → W
      → PactClient × W × List Response × Option Error
  verify_valid p (request, some e) w = (p, w, [], some e)
  verify_valid p (request, none) w =
      let port = get_port parse request.provider_base_url in
      run_verifier host scanner zero_response decode p request.args (
        wait_for_port host port (get_network_interface p)
          (get_address parse request.provider_base_url) p.timeout_duration (api_message port) w)

  unfoldable pub verify_provider :
      PactClient
      → VerifyRequest W Time TlsConfig
      → W
      → PactClient × W × List Response × Option Error
  verify_provider p request w = verify_valid p (validate rfc3339 marshal request) w
