-- ===== src/Tests/Consumer.antt =====
-- A consumer test on a concrete machine: the world is the list of what happened, the latest first.
use pact_go.Common.{
  ℕ, Text, bytes, Error, Result, ok, returns, true, false, Option, none, some, List, [], ◌∷◌, ◌++◌,
  ◌≡◌, ◌↔◌, refl, if◌then◌else◌, text_eq, leb,
}
use pact_go.Common.Steps.{unless_failed}
use pact_go.Dsl.MockService.{
  Body, null, interaction, pact, Reply, Http, MockService, call, reply_error, sent,
}
use pact_go.Dsl.MockService
use pact_go.Dsl.MockService.Status.{Succeeds, call-Succeeds_iff}
use pact_go.Dsl.Pact.{
  Pact, System, setup, setup_logging, logging_with, setup_defaults, check_tools, checked,
  setup_port, start_with, start_if_needed, add_interaction,
}
use pact_go.Dsl.Pact.Ready.{IsConfigured, IsReady, setup-IsConfigured}
use pact_go.Dsl.Pact.Verify.{verify, verify_on, verify_steps, add_all}
use pact_go.Dsl.Pact.Verify.Order.{RunsInOrder, verify-RunsInOrder}
use pact_go.Dsl.Pact.Verify.Again.{add_each}

abbrev pub Log : Type 0
Log = List ℕ

abbrev pub machine : System Log ℕ
machine = record {
  check_disabled = false;
  check_installation = λ w. (1 ∷ w, none);
  default_dir = λ name. bytes "/work/" ++ name;
  from_slash = λ path. path;
  check_port = λ port. leb 7000 port;
  free_port = ok 8080;
  new_client = λ timeout. timeout;
  start_server = λ client args port w.
      returns (2 ∷ w, record { pid = 9; port = port; error = none; args = [] });
  stop_server = λ client server w. returns (3 ∷ w, server, none);
}

-- The service refuses interaction 13.
abbrev marshalled : Body ℕ → Result Text
marshalled null = ok []
marshalled (interaction i) = ok (i ∷ [])
marshalled (pact consumer provider mode) = ok mode

abbrev reply_to : Option Text → Reply
reply_to none = record { status_code = 200; response_body = []; read_error = none }
reply_to (some body) = record {
  status_code = if text_eq body (13 ∷ []) then 500 else 200;
  response_body = body;
  read_error = none;
}

abbrev pub network : Http Log ℕ
network = record {
  marshal = marshalled;
  new_request = λ method url. none;
  send = λ method url body w. (4 ∷ w, ok (reply_to body));
}

abbrev pub fresh : Pact ℕ ℕ ℕ
fresh = record {
  server = none;
  pact_client = none;
  consumer = bytes "web";
  provider = bytes "users";
  interactions = 11 ∷ 12 ∷ [];
  message_interactions = [];
  log_level = [];
  log_filter = none;
  log_dir = [];
  pact_dir = [];
  pact_file_write_mode = [];
  specification_version = 0;
  host = [];
  network = [];
  allowed_mock_server_ports = [];
  disable_tool_validity_check = false;
  client_timeout = 0;
  tool_validity_check = false;
}

abbrev pub started : Pact ℕ ℕ ℕ
started = record fresh {
  server = some (record { pid = 9; port = 8080; error = none; args = [] });
  pact_client = some 10000;
  log_level = bytes "INFO";
  log_filter = some (bytes "INFO");
  log_dir = bytes "/work/" ++ bytes "logs";
  pact_dir = bytes "/work/" ++ bytes "pacts";
  pact_file_write_mode = bytes "overwrite";
  specification_version = 2;
  host = bytes "localhost";
  network = bytes "tcp";
  client_timeout = 10000;
  tool_validity_check = true;
}

pub set_up : setup machine true fresh [] ≡ returns (started, 2 ∷ 1 ∷ [])
unfolding setup setup_logging logging_with setup_defaults check_tools checked setup_port start_with
    start_if_needed bytes
set_up = refl

setup-IsConfigured_example : IsConfigured machine fresh started × IsReady machine started
setup-IsConfigured_example = setup-IsConfigured machine fresh started [] (2 ∷ 1 ∷ []) set_up

abbrev passing : Log → Log × Option Error
passing w = (6 ∷ w, none)

verify-RunsInOrder_example :
    (p' : Pact ℕ ℕ ℕ) × (w' : Log) × (e : Option Error) × (verify machine network fresh passing []
      ≡ returns (p', w', e))
    × RunsInOrder machine network fresh passing (2 ∷ 1 ∷ []) p' w' e
verify-RunsInOrder_example =
    verify-RunsInOrder machine network fresh started passing [] (2 ∷ 1 ∷ []) refl set_up

abbrev verified : Pact ℕ ℕ ℕ
verified = record started { interactions = [] }

verified_first :
    verify machine network fresh passing []
    ≡ returns (verified, 4 ∷ 4 ∷ 6 ∷ 4 ∷ 4 ∷ 2 ∷ 1 ∷ [], none)
unfolding verify verify_on verify_steps add_all unless_failed call sent reply_error setup
    setup_logging logging_with setup_defaults check_tools checked setup_port start_with
    start_if_needed MockService.add_interaction MockService.verify MockService.delete_interactions
    bytes text_eq
verified_first = refl

added :
    add_interaction machine 10 fresh []
    ≡ returns (record started { interactions = 11 ∷ 12 ∷ 10 ∷ [] }, 2 ∷ 1 ∷ [])
unfolding add_interaction setup setup_logging logging_with setup_defaults check_tools checked
    setup_port start_with start_if_needed bytes
added = refl

added_each :
    add_each machine (14 ∷ 15 ∷ []) (record started { interactions = 11 ∷ 12 ∷ 10 ∷ [] }) []
    ≡ returns (record started { interactions = 11 ∷ 12 ∷ 10 ∷ 14 ∷ 15 ∷ [] }, [])
unfolding add_each add_interaction setup setup_logging logging_with setup_defaults check_tools
    checked setup_port start_with start_if_needed bytes
added_each = refl

call-Succeeds_iff_example :
    (call network (bytes "POST") (bytes "/interactions") (interaction 11) [] ≡ (4 ∷ [], none))
    ↔ Succeeds network (bytes "POST") (bytes "/interactions") (interaction 11) [] (4 ∷ [])
call-Succeeds_iff_example =
    call-Succeeds_iff network (bytes "POST") (bytes "/interactions") (interaction 11) [] (4 ∷ [])
