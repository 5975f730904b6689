-- ===== src/Dsl/Doubles.antt =====
-- dsl/mock_client.go and dsl/service_mock.go: the doubles with which the tests of the repository
-- replace the client of the CLI tools and its services; and the interface `Client` of dsl/client.go
-- that the first one implements, as the client of the library does.
use pact_go.Common.{
  ℕ, suc, Text, Error, Result, Outcome, returns, panics, ◌>>=◌, Bool, true, Option, none, some,
  List, [],
}
use pact_go.Types.VerifyRequest.{VerifyRequest}
use pact_go.Types.PublishRequest.{PublishRequest}
use pact_go.Types.Selector.{ConsumerVersionSelector}
use pact_go.Types.MessageRequest.{PactMessageRequest, PactReificationRequest}
use pact_go.Client.ServiceManager.{Cmd, ProcessMap, Ending, set}
use pact_go.Client.Interface.{ServiceMethods}
use pact_go.Dsl.Pact.{MockServer}
use pact_go.Dsl.Client.{PactClient, Host}
use pact_go.Dsl.Client.Address.{ParsedUrl}
use pact_go.Dsl.Client.Servers.{
  start_server, list_servers, stop_server, remove_all_servers, publish_pacts,
}
use pact_go.Dsl.Client.Verifier.{Scanner, verify_provider}
use pact_go.Dsl.Client.MessageTool.{ReificationResponse, update_message_pact, reify_message}

-- A call of a method on an implementation `C`.
abbrev pub Method : Type 0 → Type 0 → Type 0 → Type 0
Method C W R = C → W → Outcome (C × W × R)

-- `Client`; a pointer may be nil.
pub record ClientMethods (C W Time TlsConfig Response Value : Type 0) : Type 0 where
  pub start_mock_server : List Text → ℕ → Method C W (Option MockServer)
  pub list_mock_servers : Method C W (List MockServer)
  pub stop_mock_server : MockServer → Method C W (Option MockServer × Option Error)
  pub remove_all : Option MockServer → Method C W (List MockServer)
  pub verify : VerifyRequest W Time TlsConfig → Method C W (List Response × Option Error)
  pub update_message : PactMessageRequest Value → Method C W (Option Error)
  pub reify :
      PactReificationRequest Value → Method C W (Option (ReificationResponse Value) × Option Error)
  pub publish : PublishRequest → Method C W (Option Error)

-- The client of the library.
module _ {W Time TlsConfig Response Value : Type 0} (host : Host W) (endings : ℕ → Ending)
    (scanner : Scanner W) (zero_response : Response)
    (decode : Text → Response → Response × Option Error) (parse : Text → Result ParsedUrl)
    (rfc3339 : Time → Text) (marshal_selector : ConsumerVersionSelector → Result Text)
    (marshal : Value → Result Text) (decode_value : Text → Option Value × Option Error) where
  abbrev pub library_client : ClientMethods PactClient W Time TlsConfig Response Value
  library_client = record {
    start_mock_server = λ args port p w.
        start_server host p args port w >>= λ (p', w', server). returns (p', w', some server);
    list_mock_servers = λ p w. list_servers p >>= λ servers. returns (p, w, servers);
    stop_mock_server = λ server p w.
        stop_server (endings server.pid) p server >>= λ (p', server', e).
        returns (p', w, (some server', e));
    remove_all = λ server p w. remove_all_servers endings p >>= λ p'. returns (p', w, []);
    verify = λ request p w.
        let (p', w', response, e) =
          verify_provider host scanner zero_response decode parse rfc3339 marshal_selector p request
            w in
        returns (p', w', (response, e));
    update_message = λ request p w. returns (update_message_pact host marshal p request w);
    reify = λ request p w.
        let (p', w', res, e) = reify_message host decode_value marshal p request w in
        returns (p', w', (some res, e));
    publish = λ request p w. returns (publish_pacts host p request w);
  }

-- The double of the client: it is made with its answers.
pub record MockClient (Response Value : Type 0) : Type 0 where
  pub verify_provider_response : List Response
  pub verify_provider_error : Option Error
  pub servers : List MockServer
  pub stop_server_response : Option MockServer
  pub stop_server_error : Option Error
  pub remove_all_servers_response : List MockServer
  pub mock_server : Option MockServer
  pub reify_message_response : Option (ReificationResponse Value)
  pub reify_message_error : Option Error
  pub update_message_pact_error : Option Error
  pub publish_pacts_error : Option Error

-- `foo_bar` is the map with the entry of `bar` for `foo`.
unfoldable pub new_mock_client : {Response Value : Type 0} → Value → MockClient Response Value
new_mock_client foo_bar = record {
  verify_provider_response = [];
  verify_provider_error = none;
  servers = [];
  stop_server_response = none;
  stop_server_error = none;
  remove_all_servers_response = [];
  mock_server = some (record { pid = 0; port = 0; error = none; args = [] });
  reify_message_response = some (record { response = some foo_bar; response_raw = [] });
  reify_message_error = none;
  update_message_pact_error = none;
  publish_pacts_error = none;
}

-- Its methods.
unfoldable pub mock_client :
    {W Time TlsConfig Response Value : Type 0}
    → ClientMethods (MockClient Response Value) W Time TlsConfig Response Value
mock_client = record {
  start_mock_server = λ args port p w. returns (p, w, p.mock_server);
  list_mock_servers = λ p w. returns (p, w, p.servers);
  stop_mock_server = λ server p w. returns (p, w, (p.stop_server_response, p.stop_server_error));
  remove_all = λ server p w. returns (p, w, p.remove_all_servers_response);
  verify = λ request p w. returns (p, w, (p.verify_provider_response, p.verify_provider_error));
  update_message = λ request p w. returns (p, w, p.update_message_pact_error);
  reify = λ request p w. returns (p, w, (p.reify_message_response, p.reify_message_error));
  publish = λ request p w. returns (p, w, p.publish_pacts_error);
}

-- The double of a service; `processes` may be nil.
pub record ServiceMock : Type 0 where
  pub cmd : Text
  pub processes : Option ProcessMap
  pub args : List Text
  pub service_stop_result : Bool
  pub service_stop_error : Option Error
  pub service_list : ProcessMap
  pub service_start_cmd : Option Cmd
  pub service_start_count : ℕ
  pub service_port : ℕ
  pub service_stop_count : ℕ
  pub services_setup_called : Bool

abbrev pub made_map : Option ProcessMap → ProcessMap
made_map none = []
made_map (some m) = m

-- `s.processes[cmd.Process.Pid] = cmd`, which panics on a command that did not start.
unfoldable pub keep_process : Option ℕ → Cmd → ServiceMock → Outcome ServiceMock
keep_process none c s = panics
keep_process (some pid) c s =
    returns (record s { processes = some (set pid c (made_map s.processes)) })

-- `exec_func` is the field `ExecFunc`, `spawn` is `cmd.Start()` with the pid of the new process.
module _ {W : Type 0} (exec_func : W → W × Cmd) (spawn : Cmd → W → W × Option ℕ) where
  unfoldable pub start_mock : ServiceMock → W → Outcome (ServiceMock × W × Cmd)
  start_mock s w =
      let (w₁, c) = exec_func w in
      let (w₂, pid) = spawn c w₁ in
      let c' = record c { process = pid } in
      keep_process pid c' (record s { service_start_count = suc s.service_start_count }) >>= λ s'.
      returns (s', w₂, c')

  unfoldable pub service_mock : ServiceMethods ServiceMock W
  service_mock = record {
    setup_service = λ s. record s { services_setup_called = true };
    stop_service = λ pid s. returns (
      record s { service_stop_count = suc s.service_stop_count },
      s.service_stop_result,
      s.service_stop_error,
    );
    list_service = λ s. s.service_list;
    service_command = λ s w. exec_func w;
    start_service = start_mock;
    new_service = λ args s. s;
  }
