-- ===== src/Dsl/Pact.antt =====
-- dsl/pact.go: the life of a consumer test. The clock, the environment, the file system, the
-- installer, the client of the mock server and its HTTP interface are parameters.
pub mod Setup
pub mod Ready
pub mod Verify
pub mod Sessions
use pact_go.Common.{
  ℕ, ◌==◌, Text, bytes, is_empty, Error, Result, ok, err, Outcome, returns, panics, ◌>>=◌, Bool,
  true, false, not, ◌&&◌, ◌||◌, Option, none, some, List, [], ◌∷◌, ◌++◌, if◌then◌else◌,
}
use pact_go.Common.Lists.{is_nil}
use pact_go.Utils.{find_port_in_range}
use pact_go.Utils.Decimal.{itoa}
use pact_go.Dsl.MockService.{MockService, Http}
use pact_go.Dsl.MockService

-- types/mock_server.go
pub record MockServer : Type 0 where
  pub pid : ℕ
  pub port : ℕ
  pub error : Option Error
  pub args : List Text

-- The durations are in milliseconds.
pub record Pact (Client Interaction Message : Type 0) : Type 0 where
  pub server : Option MockServer
  pub pact_client : Option Client
  pub consumer : Text
  pub provider : Text
  pub interactions : List Interaction
  pub message_interactions : List Message
  pub log_level : Text
  pub log_filter : Option Text
  pub log_dir : Text
  pub pact_dir : Text
  pub pact_file_write_mode : Text
  pub specification_version : ℕ
  pub host : Text
  pub network : Text
  pub allowed_mock_server_ports : Text
  pub disable_tool_validity_check : Bool
  pub client_timeout : ℕ
  pub tool_validity_check : Bool

-- What `Setup` and `Teardown` call. `default_dir name` is `fmt.Sprintf(filepath.Join(dir, name))`
-- in the working directory.
pub record System (W Client : Type 0) : Type 0 where
  pub check_disabled : Bool
  pub check_installation : W → W × Option Error
  pub default_dir : Text → Text
  pub from_slash : Text → Text
  pub check_port : ℕ → Bool
  pub free_port : Result ℕ
  pub new_client : ℕ → Client
  pub start_server : Client → List Text → ℕ → W → Outcome (W × MockServer)
  pub stop_server : Client → MockServer → W → Outcome (W × MockServer × Option Error)

-- `if s == "" { s = value }`
abbrev pub or_text : Text → Text → Text
or_text value s = if is_empty s then value else s

abbrev pub or_number : ℕ → ℕ → ℕ
or_number value n = if n == 0 then value else n

abbrev pub or_client : {Client : Type 0} → Client → Option Client → Option Client
or_client value none = some value
or_client value (some c) = some c

module _ {Client Interaction Message : Type 0} where
  -- A new logging filter keeps the level at which it is made.
  unfoldable pub logging_with :
      Option Text → Pact Client Interaction Message → Pact Client Interaction Message
  logging_with (some filter) p = p
  logging_with none p = record p {
    log_level = or_text (bytes "INFO") p.log_level;
    log_filter = some (or_text (bytes "INFO") p.log_level);
  }

  unfoldable pub setup_logging : Pact Client Interaction Message → Pact Client Interaction Message
  setup_logging p = logging_with p.log_filter p

  -- `AddMessage`, on the value that it appends.
  unfoldable pub add_message :
      Message → Pact Client Interaction Message → Pact Client Interaction Message
  add_message m p =
      let p' = setup_logging p in
      record p' { message_interactions = p'.message_interactions ++ m ∷ [] }

module _ {W Client Interaction Message : Type 0} where
  module _ (sys : System W Client) where
    -- The defaults of `Setup` for the fields that are not given.
    unfoldable pub setup_defaults :
        Pact Client Interaction Message → Pact Client Interaction Message
    setup_defaults p = record p {
      network = or_text (bytes "tcp") p.network;
      host = or_text (bytes "localhost") p.host;
      log_dir = or_text (sys.default_dir (bytes "logs")) p.log_dir;
      pact_dir = or_text (sys.default_dir (bytes "pacts")) p.pact_dir;
      specification_version = or_number 2 p.specification_version;
      client_timeout = or_number 10000 p.client_timeout;
      pact_client = or_client (sys.new_client (or_number 10000 p.client_timeout)) p.pact_client;
      pact_file_write_mode = or_text (bytes "overwrite") p.pact_file_write_mode;
    }

    abbrev pub needs_check : Pact Client Interaction Message → Bool
    needs_check p =
        not p.tool_validity_check && not (p.disable_tool_validity_check || sys.check_disabled)

    -- A failed check ends the process.
    unfoldable pub checked :
        Pact Client Interaction Message
        → W × Option Error
        → Outcome (Pact Client Interaction Message × W)
    checked p (w, none) = returns (record p { tool_validity_check = true }, w)
    checked p (w, some e) = panics

    -- `checkCliCompatibility`, if it is to be called.
    unfoldable pub check_tools :
        Pact Client Interaction Message → W → Outcome (Pact Client Interaction Message × W)
    check_tools p w = if needs_check p then checked p (sys.check_installation w) else returns (p, w)

    -- A port that is not found is 0, and the mock server then fails to start. The search, which the code
    -- makes also if it starts no server, is taken to end.
    unfoldable pub setup_port : Pact Client Interaction Message → ℕ
    setup_port p =
        elim (if not (is_empty p.allowed_mock_server_ports)
          then find_port_in_range sys.check_port p.allowed_mock_server_ports
          else sys.free_port) [ ok port ↦ port | err _ ↦ 0 ]

    abbrev pub server_args : Pact Client Interaction Message → List Text
    server_args p =
        bytes "--pact-specification-version"
        ∷ itoa p.specification_version
        ∷ bytes "--pact-dir"
        ∷ sys.from_slash p.pact_dir
        ∷ bytes "--log"
        ∷ sys.from_slash (p.log_dir ++ bytes "/" ++ bytes "pact.log")
        ∷ bytes "--consumer"
        ∷ p.consumer
        ∷ bytes "--provider"
        ∷ p.provider
        ∷ bytes "--pact-file-write-mode"
        ∷ p.pact_file_write_mode
        ∷ []

    -- The server and the client of the `Pact`; `StartServer` on a nil client would panic.
    unfoldable pub start_with :
        Option MockServer
        → Option Client
        → Pact Client Interaction Message
        → W
        → Outcome (Pact Client Interaction Message × W)
    start_with (some s) client p w = returns (p, w)
    start_with none none p w = panics
    start_with none (some c) p w = do
      (w', s) ← sys.start_server c (server_args p) (setup_port p) w
      returns (record p { server = some s }, w')

    unfoldable pub start_if_needed :
        Bool → Pact Client Interaction Message → W → Outcome (Pact Client Interaction Message × W)
    start_if_needed false p w = returns (p, w)
    start_if_needed true p w = start_with p.server p.pact_client p w

    unfoldable pub setup :
        Bool → Pact Client Interaction Message → W → Outcome (Pact Client Interaction Message × W)
    setup start p w = do
      (p', w') ← check_tools (setup_logging p) w
      start_if_needed start (setup_defaults p') w'

    -- `AddInteraction`, on the value that it appends.
    unfoldable pub add_interaction :
        Interaction
        → Pact Client Interaction Message
        → W
        → Outcome (Pact Client Interaction Message × W)
    add_interaction i p w = do
      (p', w') ← setup true p w
      returns (record p' { interactions = p'.interactions ++ i ∷ [] }, w')

    -- `StopServer` on a nil client would panic.
    unfoldable pub teardown_with :
        Option MockServer
        → Option Client
        → Pact Client Interaction Message
        → W
        → Outcome (Pact Client Interaction Message × W)
    teardown_with none client p w = returns (p, w)
    teardown_with (some s) none p w = panics
    teardown_with (some s) (some c) p w = do
      (w', s', e) ← sys.stop_server c s w
      returns (record p { server = some s' }, w')

    -- `Teardown` keeps what `StopServer` returns, and only logs its error.
    unfoldable pub teardown :
        Pact Client Interaction Message → W → Outcome (Pact Client Interaction Message × W)
    teardown p w = teardown_with p.server p.pact_client p w
