-- ===== src/Dsl/Lifecycle.antt =====
-- The life of a consumer test of dsl/pact.go, with the client of dsl/client.go and the installer of
-- install/installer.go behind it.
pub mod Servers
pub mod Teardown
pub mod Ports
pub mod Sessions
use pact_go.Common.{ℕ, Text, Error, Result, returns, ◌>>=◌, Bool, Option, List}
use pact_go.Install.{Commander, check_entries}
use pact_go.Client.ServiceManager.{Ending}
use pact_go.Client.Services.{settle}
use pact_go.Dsl.Client.{PactClient, Host}
use pact_go.Dsl.Client.Servers.{start_server, stop_server}
use pact_go.Dsl.Pact.{System}

-- The client that `NewClient` gives, of which there is one, and the world around it.
pub record Machine (W : Type 0) : Type 0 where
  pub client : PactClient
  pub outside : W

-- What `Setup` and `Teardown` take of the operating system. `ending` says how the waits for a
-- process end that is stopped.
pub record Environment : Type 0 where
  pub check_disabled : Bool
  pub default_dir : Text → Text
  pub from_slash : Text → Text
  pub check_port : ℕ → Bool
  pub free_port : Result ℕ
  pub ending : ℕ → Ending

module _ {W Version : Type 0} (host : Host W) (commander : Commander Version)
    (entries : List (Text × Text)) (environment : Environment) where
  -- A client is known by the timeout that `Setup` sets in it.
  abbrev pub system : System (Machine W) ℕ
  system = record {
    check_disabled = environment.check_disabled;
    check_installation = λ m. (m, check_entries commander entries);
    default_dir = environment.default_dir;
    from_slash = environment.from_slash;
    check_port = environment.check_port;
    free_port = environment.free_port;
    new_client = λ timeout. timeout;
    start_server = λ timeout args port m.
        start_server host (record m.client { timeout_duration = timeout }) args port m.outside
        >>= λ (client, outside, server).
            returns (record { client = client; outside = outside }, server);
    stop_server = λ timeout server m.
        stop_server (environment.ending server.pid) m.client server >>= λ (client, server', e).
        returns (record m { client = client }, server', e);
  }

-- The add monitor of the mock servers ends its round.
abbrev pub recorded : {W : Type 0} → Machine W → Machine W
recorded m = record m {
  client = record m.client { pact_mock_svc_manager = settle m.client.pact_mock_svc_manager };
}
