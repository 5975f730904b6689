-- ===== src/Client/Services.antt =====
-- client/mock_service.go, verification_service.go, message_service.go and publish_service.go, which
-- say what a `ServiceManager` runs, and the calls of the manager in the order of one caller.
pub mod Runs
use pact_go.Common.{
  ℕ, Text, bytes, Error, Outcome, returns, panics, Bool, Option, none, some, List, [], ◌∷◌, ◌++◌,
}
use pact_go.Client.ServiceManager.{
  Cmd, ServiceManager, get, command, add_round, Ending, stop_result,
}

-- The four `NewService`.
unfoldable pub new_mock_service : List Text → ServiceManager → ServiceManager
new_mock_service args s = record s {
  args = bytes "service" ∷ args;
  cmd = bytes "pact-mock-service";
}

-- `PACT_INTERACTION_RERUN_COMMAND` and what the code sets it to.
abbrev pub rerun_command : Text
rerun_command =
    bytes
      "PACT_INTERACTION_RERUN_COMMAND=\"To re-run this specific test, set the following environment variables and run your test again: PACT_DESCRIPTION=\\\"<PACT_DESCRIPTION>\\\" PACT_PROVIDER_STATE=\\\"<PACT_PROVIDER_STATE>\\\"\""

-- `environ` is `os.Environ()`.
unfoldable pub new_verification_service : List Text → List Text → ServiceManager → ServiceManager
new_verification_service environ args s = record s {
  args = args;
  cmd = bytes "pact-provider-verifier";
  env = environ ++ rerun_command ∷ [];
}

unfoldable pub new_message_service : List Text → ServiceManager → ServiceManager
new_message_service args s = record s { args = args; cmd = bytes "pact-message" }

unfoldable pub new_publish_service : List Text → ServiceManager → ServiceManager
new_publish_service args s = record s { args = bytes "publish" ∷ args; cmd = bytes "pact-broker" }

-- The add monitor takes a command only when it has ended its round.
abbrev pub settle_with : Option Cmd → ServiceManager → ServiceManager
settle_with none s = s
settle_with (some c) s = add_round c s

unfoldable pub settle : ServiceManager → ServiceManager
settle s = settle_with s.adding s

-- `Start`, whose two pipes are created: `spawn` is `cmd.Start()`, with the pid of the new process or
-- nothing if it fails.
unfoldable pub start :
    {W : Type 0}
    → List Text
    → (Cmd → W → W × Option ℕ)
    → ServiceManager
    → W
    → ServiceManager × W × Cmd
unfolding command
start environ spawn s w =
    let (w', pid) = spawn (command environ s) w in
    let c = record (command environ s) { process = pid } in
    (record (settle s) { adding = some c }, w', c)

-- `Stop`: a pid that has no command makes `cmd.Wait()` panic.
abbrev pub stop_found :
    Option Cmd → Ending → ServiceManager → Outcome (ServiceManager × Bool × Option Error)
stop_found none ending s = panics
stop_found (some c) ending s =
    let (done, e) = stop_result ending in
    returns (record s { stopping = s.stopping ++ c ∷ [] }, done, e)

unfoldable pub stop : ℕ → Ending → ServiceManager → Outcome (ServiceManager × Bool × Option Error)
stop pid ending s = stop_found (get pid s.process_map) ending s
