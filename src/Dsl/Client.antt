-- ===== src/Dsl/Client.antt =====
-- dsl/client.go: the client of the Pact CLI tools. A command that is run, the polls of a port and
-- `net/url` are parameters.
pub mod Address
pub mod Servers
pub mod Verifier
pub mod Pipes
pub mod MessageTool
pub mod Output
use pact_go.Common.{
  ℕ, suc, ℤ, pos, negsuc, Text, bytes, is_empty, Error, Result, ok, err, Option, none, some, List,
  [], ◌∷◌, ◌++◌, if◌then◌else◌,
}
use pact_go.Utils.Decimal.{itoa}
use pact_go.Client.ServiceManager.{ServiceManager, Cmd, setup}

-- Without the field `Servers`, which nothing uses. The timeout is in milliseconds.
pub record PactClient : Type 0 where
  pub pact_mock_svc_manager : ServiceManager
  pub verification_svc_manager : ServiceManager
  pub message_svc_manager : ServiceManager
  pub publish_svc_manager : ServiceManager
  pub network : Text
  pub address : Text
  pub timeout_duration : ℕ

unfoldable pub new_client :
    ServiceManager → ServiceManager → ServiceManager → ServiceManager → PactClient
new_client mock verification message publish = record {
  pact_mock_svc_manager = setup mock;
  verification_svc_manager = setup verification;
  message_svc_manager = setup message;
  publish_svc_manager = setup publish;
  network = [];
  address = [];
  timeout_duration = 10000;
}

unfoldable pub get_network_interface : PactClient → Text
get_network_interface p = if is_empty p.network then bytes "tcp" else p.network

-- `%d`
abbrev pub show_int : ℤ → Text
show_int (pos n) = itoa n
show_int (negsuc n) = b'-' ∷ itoa (suc n)

-- How the polls of a port go: each is refused, or connects, or the time is over before the next.
pub data Polls : Type 0 where
  timed_out connected : Polls
  refused : Polls → Polls

-- The loop of `waitForPort`; `duration` is the text of the timeout.
unfoldable pub poll : Text → Text → Polls → Option Error
poll duration message timed_out =
    some (bytes "Expected server to start < " ++ duration ++ bytes ". " ++ message)
poll duration message connected = none
poll duration message (refused polls) = poll duration message polls

-- What the code calls of `os/exec`, `os`, `net` and `time`. `spawn` is `cmd.Start()`, with the pid of
-- the new process or an error; the texts of a process are what is read of its two pipes up to their
-- ends.
pub record Host (W : Type 0) : Type 0 where
  pub environ : List Text
  pub stdout_pipe : Cmd → Option Error
  pub stderr_pipe : Cmd → Option Error
  pub spawn : Cmd → W → W × Result ℕ
  pub read_stdout : Cmd → W → W × Result Text
  pub read_stderr : Cmd → W → W × Result Text
  pub wait : Cmd → W → W × Option Error
  pub polls : ℤ → Text → Text → ℕ → W → W × Polls
  pub show_duration : ℕ → Text

abbrev pub pid_of : Result ℕ → Option ℕ
pid_of (ok pid) = some pid
pid_of (err e) = none

module _ {W : Type 0} (host : Host W) where
  unfoldable pub wait_for_port : ℤ → Text → Text → ℕ → Text → W → W × Option Error
  wait_for_port port network address timeout message w =
      let (w', polls) = host.polls port network address timeout w in
      (w', poll (host.show_duration timeout) message polls)

  -- `cmd.Start()` of a service's `Start`, which only logs an error.
  abbrev pub spawn_pid : Cmd → W → W × Option ℕ
  spawn_pid c w = let (w', r) = host.spawn c w in (w', pid_of r)
