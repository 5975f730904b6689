-- ===== src/Tests/Lifecycle.antt =====
-- A consumer test with the client of the library on a concrete host.
use pact_go.Common.{
  Error, Option, split, trim_space, text_eq, ℕ, Text, bytes, ok, returns, true, false, none, some,
  List, [], ◌∷◌, ◌++◌, ◌≡◌, refl,
}
use pact_go.Install.{
  check_entries, check_binary, check_version, check_parsed, check_range, get_version_for_binary,
  range_of, version_map,
}
use pact_go.Utils.Decimal.{itoa}
use pact_go.Client.Services.{new_mock_service, start, settle}
use pact_go.Dsl.Client.Servers.{start_server}
use pact_go.Client.ServiceManager.{ServiceManager, finished, get, stop_result, setup, command}
use pact_go.Client.ServiceManager.Steps.{Inv, here, Reach-Inv}
use pact_go.Client.ServiceManager.Rounds.{Rounds, work}
use pact_go.Dsl.Client.{wait_for_port, poll}
use pact_go.Dsl.Pact.{
  MockServer, Pact, teardown, server_args, setup_logging, logging_with, setup_defaults, check_tools,
  checked, setup_port, start_with, start_if_needed,
}
use pact_go.Dsl.Pact
use pact_go.Dsl.Lifecycle.{Machine, Environment, system, recorded}
use pact_go.Dsl.Lifecycle.Sessions.{outside, setup-calls-teardown}
use pact_go.Common.Runs.{run_calls}
use pact_go.Dsl.Pact.Sessions.{Call, check, expect, write, call_pact}
use pact_go.Tests.Manager.{idle}
use pact_go.Tests.Install.{commander, entries}
use pact_go.Tests.Client.{Log, host}
use pact_go.Tests.Consumer.{fresh, started, network}

abbrev pub environment : Environment
environment = record {
  check_disabled = false;
  default_dir = λ name. bytes "/work/" ++ name;
  from_slash = λ path. path;
  check_port = λ port. true;
  free_port = ok 8080;
  ending = λ pid. finished none;
}

abbrev pub machine : Machine Log
machine = record {
  client = record {
    pact_mock_svc_manager = idle;
    verification_svc_manager = idle;
    message_svc_manager = idle;
    publish_svc_manager = idle;
    network = [];
    address = [];
    timeout_duration = 10000;
  };
  outside = [];
}

idle-Inv : Inv idle
unfolding setup
idle-Inv = Reach-Inv idle here

abbrev pub running : MockServer
running = record { pid = 72; port = 8080; error = none; args = [] }

abbrev pub with_server : Pact ℕ ℕ ℕ
with_server = record started { server = some running }

abbrev mock_args : List Text
mock_args =
    bytes "service"
    ∷ (server_args (system host commander entries environment) with_server
        ++ bytes "--port" ∷ itoa 8080 ∷ [])

abbrev pub serving : Machine Log
serving = record {
  client = record machine.client {
    pact_mock_svc_manager = record idle {
      args = mock_args;
      adding = some (record {
        path = bytes "pact-mock-service";
        args = mock_args;
        env = host.environ;
        process = some 72;
      });
    };
  };
  outside = 5 ∷ 1 ∷ [];
}

set_up :
    Pact.setup (system host commander entries environment) true fresh machine
    ≡ returns (with_server, serving)
unfolding Pact.setup setup_logging logging_with setup_defaults check_tools checked setup_port
    start_with start_if_needed check_entries check_binary check_version check_parsed check_range
    get_version_for_binary range_of version_map start_server new_mock_service start command settle
    wait_for_port poll bytes split trim_space text_eq
set_up = refl

-- An integration test that writes into the world around the client.
abbrev noted : Machine Log → Machine Log × Option Error
noted m = (record m { outside = 6 ∷ m.outside }, none)

abbrev calls : List (Call (Machine Log) ℕ ℕ)
calls = check noted ∷ expect 15 ∷ write ∷ []

setup-calls-teardown_example :
    (s : MockServer) × (q₁ : Pact ℕ ℕ ℕ) × (m₁ m₂ : Machine Log) × (es : List (Option Error))
    × (with_server.server ≡ some s)
    × (run_calls
          (call_pact (system host commander entries environment) (outside network))
          calls
          with_server
          (recorded serving)
        ≡ returns (q₁, m₁, es))
    × (teardown (system host commander entries environment) q₁ m₁
        ≡ returns (
          record q₁ { server = some (record s { error = (stop_result (finished none)).1 }) },
          m₂,
        ))
    × ((t : ServiceManager) × Rounds
          (work m₂.client.pact_mock_svc_manager)
          m₂.client.pact_mock_svc_manager
          t)
    × ((t : ServiceManager)
        → Rounds (work m₂.client.pact_mock_svc_manager) m₂.client.pact_mock_svc_manager t
        → get s.pid t.process_map ≡ none)
setup-calls-teardown_example =
    setup-calls-teardown host commander entries environment network fresh with_server machine
      serving calls refl idle-Inv set_up ((λ m. refl), (tt, (tt, tt)))
