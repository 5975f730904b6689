-- ===== src/Tests/Doubles.antt =====
-- The doubles, the builders of matchers and the programs of the examples on concrete inputs.
use pact_go.Common.{
  ℕ, bytes, ok, returns, true, false, none, some, [], ◌∷◌, ◌++◌, ◌≡◌, refl, text_eq, split,
  split_at, has_prefix, contains_byte, pos,
}
use pact_go.Client.ServiceManager.{Cmd, set}
use pact_go.Client.Interface.{ServiceMethods}
use pact_go.Dsl.Doubles.{
  ClientMethods, MockClient, new_mock_client, mock_client, ServiceMock, service_mock, start_mock,
  keep_process,
}
use pact_go.Dsl.Client.Output.{sanitise_ruby_response}
use pact_go.Dsl.Matcher.{Matcher, Content, text, int, Entries, struct_matcher}
use pact_go.Dsl.Matcher
use pact_go.Dsl.Matcher.Tags.{
  Sscanf, pluck_params, pluck_kind, pluck_string, pluck_regex, pluck_example, get_defaults,
  get_json_field_name, before_comma, full_regex, example_regex, scanned,
}
use pact_go.Dsl.Matcher.Match.{match, match_string, match_integer}
use pact_go.Dsl.Matcher.Builders.{match_value}
use pact_go.Examples.Messages.{order}

abbrev methods : ClientMethods (MockClient ℕ ℕ) ℕ ℕ ℕ ℕ ℕ
methods = mock_client

-- The double of a client gives the server that it is made with.
double_started :
    methods.start_mock_server [] 8080 (new_mock_client 3) 7
    ≡ returns (new_mock_client 3, 7, some (record { pid = 0; port = 0; error = none; args = [] }))
unfolding mock_client new_mock_client
double_started = refl

abbrev echo : Cmd
echo = record { path = bytes "echo"; args = []; env = []; process = none }

abbrev unused : ServiceMock
unused = record {
  cmd = [];
  processes = none;
  args = [];
  service_stop_result = true;
  service_stop_error = none;
  service_list = [];
  service_start_cmd = none;
  service_start_count = 0;
  service_port = 0;
  service_stop_count = 0;
  services_setup_called = false;
}

abbrev runs : ServiceMethods ServiceMock ℕ
runs = service_mock (λ w. (w, echo)) (λ c w. (w, some 72))

service_started :
    runs.start_service unused 7
    ≡ returns (
      record unused {
        service_start_count = 1;
        processes = some ((72, record echo { process = some 72 }) ∷ []);
      },
      7,
      record echo { process = some 72 },
    )
unfolding service_mock start_mock keep_process set
service_started = refl

-- The three replacements, each on the text of the one before.
sanitised :
    sanitise_ruby_response (λ pattern source replacement. source ++ b'/' ∷ replacement) (bytes "a")
    ≡ bytes "a///\n"
unfolding sanitise_ruby_response bytes
sanitised = refl

abbrev scanner : Sscanf ℕ
scanner = record {
  zero_float = 0;
  example_bool = λ tag. ok true;
  example_float = λ tag. ok 3;
  example_int = λ tag. ok (pos 42);
  example_string = λ tag. ok (bytes "apple");
  min_int = λ tag. ok (pos 2);
}

order_matched :
    match_value (λ n. false) 1 scanner order
    ≡ returns (
        struct_matcher (
          Entries.entry (bytes "id") (Matcher.like (int (pos 42))) (
            Entries.entry
              (bytes "item")
              (Matcher.term (bytes "apple") (bytes "(apple|orange)"))
              Entries.end)))
unfolding match_value match match_string match_integer pluck_params pluck_kind pluck_string
    pluck_regex pluck_example get_defaults get_json_field_name before_comma full_regex example_regex
    scanned bytes text_eq split has_prefix contains_byte split_at Matcher.set_entry
order_matched = refl
