-- ===== src/Tests/MessageConsumer.antt =====
-- A test of a message consumer on a concrete machine. The world is the list of what happened, the
-- latest first.
use pact_go.Common.{
  ℕ, bytes, Error, ok, returns, true, false, Option, none, some, List, [], ◌∷◌, ◌≡◌, inr, refl,
}
use pact_go.Dsl.Matcher.{Entries}
use pact_go.Dsl.Messages.{Message}
use pact_go.Dsl.Pact.{Pact, System}
use pact_go.Dsl.Pact.Ready.{IsConfigured}
use pact_go.Dsl.Messages.Consumer.{MessageClient, Consumed, verify_message_consumer_raw}
use pact_go.Dsl.Messages.Consumer.Order.{IsConsumed, verify_message_consumer_raw-IsConsumed}

abbrev Log : Type 0
Log = List ℕ

abbrev machine : System Log ℕ
machine = record {
  check_disabled = false;
  check_installation = λ w. (1 ∷ w, none);
  default_dir = λ name. name;
  from_slash = λ path. path;
  check_port = λ port. true;
  free_port = ok 8080;
  new_client = λ timeout. timeout;
  start_server = λ client args port w.
      returns (2 ∷ w, record { pid = 9; port = port; error = none; args = [] });
  stop_server = λ client server w. returns (3 ∷ w, server, none);
}

abbrev tools : MessageClient Log ℕ ℕ ℕ
tools = record {
  reify_message = λ client content w. (4 ∷ w, ok (7 ∷ []));
  is_typed = λ value. true;
  type_name = λ value. [];
  narrow = λ value raw. (some 7, none);
  update_message_pact = λ client request w. (6 ∷ w, none);
}

abbrev consumer : Pact ℕ ℕ (Message ℕ ℕ)
consumer = record {
  server = none;
  pact_client = none;
  consumer = bytes "web";
  provider = bytes "users";
  interactions = [];
  message_interactions = [];
  log_level = [];
  log_filter = none;
  log_dir = [];
  pact_dir = [];
  pact_file_write_mode = [];
  specification_version = 0;
  host = [];
  network = [];
  allowed_mock_server_ports = [];
  disable_tool_validity_check = false;
  client_timeout = 0;
  tool_validity_check = false;
}

abbrev pub event : Message ℕ ℕ
event = record {
  content = some 5;
  content_raw = none;
  states = [];
  metadata = Entries.end;
  description = bytes "user created";
  message_type = some 0;
  args = [];
}

abbrev pub accepting : Message ℕ ℕ → Log → Log × Option Error
accepting m w = (5 ∷ w, none)

verify_message_consumer_raw-IsConsumed_example :
    (c : ℕ) × (q : Pact ℕ ℕ (Message ℕ ℕ)) × (w₁ : Log) × (r : Consumed Log ℕ ℕ ℕ ℕ) × IsConfigured
      machine consumer q
    × (q.pact_client ≡ some c)
    × (verify_message_consumer_raw tools machine consumer event accepting [] ≡ returns r)
    × IsConsumed tools c q event accepting w₁ r
verify_message_consumer_raw-IsConsumed_example =
    verify_message_consumer_raw-IsConsumed tools machine consumer event accepting [] (inr refl)
