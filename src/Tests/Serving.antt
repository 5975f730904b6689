-- ===== src/Tests/Serving.antt =====
-- The port of a mock server on a concrete network, of which the ports from 7001 on are free.
use pact_go.Common.{
  ℕ, Text, bytes, ok, err, returns, true, none, some, List, [], ◌∷◌, ◌++◌, ◌≡◌, refl, if◌then◌else◌,
  contains_byte, split, trim_space, text_eq,
}
use pact_go.Install.{
  check_entries, check_binary, check_version, check_parsed, check_range, get_version_for_binary,
  range_of, version_map,
}
use pact_go.Utils.{find_port_in_range, find_range, find_bounds, find_between}
use pact_go.Utils.Decimal.{itoa, atoi, digits, in_int}
use pact_go.Utils.Listen.{Net, usable_on, check_port}
use pact_go.Client.ServiceManager.{command}
use pact_go.Client.Services.{new_mock_service, start, settle}
use pact_go.Dsl.Client.{wait_for_port, poll}
use pact_go.Dsl.Client.Servers.{start_server}
use pact_go.Dsl.Pact.{
  MockServer, Pact, server_args, setup_logging, logging_with, setup_defaults, check_tools, checked,
  setup_port, start_with, start_if_needed, setup,
}
use pact_go.Dsl.Lifecycle.{Machine, system}
use pact_go.Dsl.Lifecycle.Ports.{on_net, IsPortFor, IsLaunched, setup-IsLaunched}
use pact_go.Tests.Install.{commander, entries}
use pact_go.Tests.Client.{Log, host}
use pact_go.Tests.Consumer.{fresh}
use pact_go.Tests.Lifecycle.{environment, machine, with_server, serving}

-- An address is known by its text.
abbrev net : Net Text
net = record {
  resolve = λ address. ok address;
  listen =
      λ address. if text_eq address (bytes "localhost:7000") then err (bytes "in use") else ok 7001;
}

abbrev allowed_ports : Text
allowed_ports = bytes "7000-7002"

abbrev allowing : Pact ℕ ℕ ℕ
allowing = record fresh { allowed_mock_server_ports = allowed_ports }

abbrev running : MockServer
running = record { pid = 72; port = 7001; error = none; args = [] }

abbrev set_up_on : Pact ℕ ℕ ℕ
set_up_on = record with_server { server = some running; allowed_mock_server_ports = allowed_ports }

abbrev mock_args : List Text
mock_args =
    bytes "service"
    ∷ (server_args (system host commander entries (on_net net environment)) set_up_on
        ++ bytes "--port" ∷ itoa 7001 ∷ [])

abbrev serving_on : Machine Log
serving_on = record serving {
  client = record serving.client {
    pact_mock_svc_manager = record serving.client.pact_mock_svc_manager {
      args = mock_args;
      adding = some (record {
        path = bytes "pact-mock-service";
        args = mock_args;
        env = host.environ;
        process = some 72;
      });
    };
  };
}

set_up :
    setup (system host commander entries (on_net net environment)) true allowing machine
    ≡ returns (set_up_on, serving_on)
unfolding setup setup_logging logging_with setup_defaults check_tools checked setup_port start_with
    start_if_needed check_entries check_binary check_version check_parsed check_range
    get_version_for_binary range_of version_map start_server new_mock_service start command settle
    wait_for_port poll find_port_in_range find_range find_bounds find_between usable_on check_port
    atoi digits in_int contains_byte bytes split trim_space text_eq itoa
set_up = refl

setup-IsLaunched_example :
    (s : MockServer) × (set_up_on.server ≡ some s)
    × IsPortFor net allowed_ports s.port
    × IsLaunched serving_on.client.pact_mock_svc_manager s
        (server_args (system host commander entries (on_net net environment)) set_up_on)
setup-IsLaunched_example =
    setup-IsLaunched host commander entries environment net allowing set_up_on machine serving_on
      refl set_up
