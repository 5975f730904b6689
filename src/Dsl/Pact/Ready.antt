-- ===== src/Dsl/Pact/Ready.antt =====
-- What `Setup`, `AddInteraction` and `Teardown` of dsl/pact.go leave of a `Pact`.
use pact_go.Common.{
  returns_inj, ℕ, Text, bytes, returns, Bool, true, false, Option, none, some, [], ◌∷◌, ◌≡◌, ◌≢◌,
  refl, ap, arith,
}
use pact_go.Dsl.Pact.{
  MockServer, Pact, System, or_text, or_number, setup_logging, logging_with, setup_defaults,
  check_tools, start_with, needs_check, or_client, start_if_needed, setup,
}
use pact_go.Dsl.Pact.Setup.{prepared, setup_inv, start_with_inv}

-- A text that was given, or the default in place of an empty one.
pub record OrDefault (default given result : Text) : Type 0 where
  pub kept : given ≢ [] → result ≡ given
  pub filled : given ≡ [] → result ≡ default

-- A number that was given, or the default in place of 0.
pub record OrDefaultNumber (default given result : ℕ) : Type 0 where
  pub kept : given ≢ 0 → result ≡ given
  pub filled : given ≡ 0 → result ≡ default

or_text-OrDefault : (value s : Text) → OrDefault value s (or_text value s)
or_text-OrDefault value [] = record { kept = λ h. absurd (h refl); filled = λ e. refl }
or_text-OrDefault value (c ∷ s) = record { kept = λ h. refl; filled = λ e. absurd (cc) }

or_number-OrDefaultNumber : (value n : ℕ) → OrDefaultNumber value n (or_number value n)
or_number-OrDefaultNumber value n = record {
  kept = λ h. ground (arith, h);
  filled = λ e. ground (arith, e);
}

-- The level and the filter behind the logging: a filter that was given stays with the level, and a new
-- one has the level that was given, or INFO.
pub record IsLogging (filter : Option Text) (given level : Text) (result : Option Text)
    : Type 0 where
  pub kept : (f : Text) → filter ≡ some f → (level ≡ given) × (result ≡ some f)
  pub made : filter ≡ none → OrDefault (bytes "INFO") given level × (result ≡ some level)

IsLogging-inv :
    {Client Interaction Message : Type 0} (f : Option Text) (p : Pact Client Interaction Message)
    → p.log_filter ≡ f
    → (level g : Text) × (logging_with f p ≡ record p { log_level = level; log_filter = some g })
      × IsLogging f p.log_level level (some g)
unfolding logging_with
IsLogging-inv (some f) p q = (
  p.log_level,
  f,
  λ i. record p { log_filter = q i },
  record { kept = λ g e. (refl, e); made = λ e. absurd (cc) },
)
IsLogging-inv none p q = (
  or_text (bytes "INFO") p.log_level,
  or_text (bytes "INFO") p.log_level,
  refl,
  record {
    kept = λ g e. absurd (cc);
    made = λ e. (or_text-OrDefault (bytes "INFO") p.log_level, refl);
  },
)

or_client_given :
    {Client : Type 0} (v c : Client) (client : Option Client)
    → client ≡ some c
    → or_client v client ≡ some c
or_client_given v c none e = absurd (cc)
or_client_given v c (some d) e = e

or_client-none :
    {Client : Type 0} (v : Client) (client : Option Client)
    → client ≡ none
    → or_client v client ≡ some v
or_client-none v none e = refl
or_client-none v (some d) e = absurd (cc)

or_client-ne-none : {Client : Type 0} (v : Client) (c : Option Client) → or_client v c ≢ none
or_client-ne-none v none = cc
or_client-ne-none v (some c) = cc

or_text_idem : (v s : Text) → or_text v (or_text v s) ≡ or_text v s
or_text_idem v s = ground arith

or_number_idem : (v n : ℕ) → or_number v (or_number v n) ≡ or_number v n
or_number_idem v n = ground arith

or_client_idem :
    {Client : Type 0} (v v' : Client) (c : Option Client)
    → or_client v (or_client v' c) ≡ or_client v' c
or_client_idem v v' none = refl
or_client_idem v v' (some c) = refl

module _ {W Client Interaction Message : Type 0} (sys : System W Client) where
  -- Every field that has a default holds what was given, or its default.
  pub record HasDefaults (p p' : Pact Client Interaction Message) : Type 0 where
    pub network : OrDefault (bytes "tcp") p.network p'.network
    pub host : OrDefault (bytes "localhost") p.host p'.host
    pub log_dir : OrDefault (sys.default_dir (bytes "logs")) p.log_dir p'.log_dir
    pub pact_dir : OrDefault (sys.default_dir (bytes "pacts")) p.pact_dir p'.pact_dir
    pub specification_version : OrDefaultNumber 2 p.specification_version p'.specification_version
    pub client_timeout : OrDefaultNumber 10000 p.client_timeout p'.client_timeout
    pub write_mode : OrDefault (bytes "overwrite") p.pact_file_write_mode p'.pact_file_write_mode
    pub given_client : (c : Client) → p.pact_client ≡ some c → p'.pact_client ≡ some c
    pub new_client : p.pact_client ≡ none → p'.pact_client ≡ some (sys.new_client p'.client_timeout)
    pub logging : IsLogging p.log_filter p.log_level p'.log_level p'.log_filter

  -- Every field that has a default holds what was given, or its default; the tests' own fields are
  -- unchanged.
  pub record IsConfigured (p p' : Pact Client Interaction Message) : Type 0 where
    pub network : p'.network ≡ or_text (bytes "tcp") p.network
    pub host : p'.host ≡ or_text (bytes "localhost") p.host
    pub log_dir : p'.log_dir ≡ or_text (sys.default_dir (bytes "logs")) p.log_dir
    pub pact_dir : p'.pact_dir ≡ or_text (sys.default_dir (bytes "pacts")) p.pact_dir
    pub specification_version : p'.specification_version ≡ or_number 2 p.specification_version
    pub client_timeout : p'.client_timeout ≡ or_number 10000 p.client_timeout
    pub write_mode : p'.pact_file_write_mode ≡ or_text (bytes "overwrite") p.pact_file_write_mode
    pub client : p'.pact_client ≢ none
    pub logging : p'.log_filter ≢ none
    pub consumer : p'.consumer ≡ p.consumer
    pub provider : p'.provider ≡ p.provider
    pub interactions : p'.interactions ≡ p.interactions
    pub messages : p'.message_interactions ≡ p.message_interactions
    pub ports : p'.allowed_mock_server_ports ≡ p.allowed_mock_server_ports
    pub check_disabled : p'.disable_tool_validity_check ≡ p.disable_tool_validity_check
    pub defaults : HasDefaults p p'

  prepared-IsConfigured :
      (c : Bool) (p : Pact Client Interaction Message) (s : Option MockServer)
      → IsConfigured p (record (prepared sys c p) { server = s })
  unfolding setup_defaults setup_logging
  prepared-IsConfigured c p s =
      let (level, g, same, logs) = IsLogging-inv p.log_filter p refl in
      rw same (record {
        network = refl;
        host = refl;
        log_dir = refl;
        pact_dir = refl;
        specification_version = refl;
        client_timeout = refl;
        write_mode = refl;
        client = or_client-ne-none _ p.pact_client;
        logging = cc;
        consumer = refl;
        provider = refl;
        interactions = refl;
        messages = refl;
        ports = refl;
        check_disabled = refl;
        defaults = record {
          network = or_text-OrDefault (bytes "tcp") p.network;
          host = or_text-OrDefault (bytes "localhost") p.host;
          log_dir = or_text-OrDefault (sys.default_dir (bytes "logs")) p.log_dir;
          pact_dir = or_text-OrDefault (sys.default_dir (bytes "pacts")) p.pact_dir;
          specification_version = or_number-OrDefaultNumber 2 p.specification_version;
          client_timeout = or_number-OrDefaultNumber 10000 p.client_timeout;
          write_mode = or_text-OrDefault (bytes "overwrite") p.pact_file_write_mode;
          given_client = λ c. or_client_given _ c p.pact_client;
          new_client = or_client-none _ p.pact_client;
          logging = logs;
        };
      })

  -- A `Pact` that a `Setup` with a server has prepared.
  pub record IsReady (p : Pact Client Interaction Message) : Type 0 where
    pub tested : needs_check sys p ≡ false
    pub filter : Text
    pub logging : p.log_filter ≡ some filter
    pub defaults : setup_defaults sys p ≡ p
    pub running : MockServer
    pub server : p.server ≡ some running

  setup_defaults_idem :
      (p : Pact Client Interaction Message)
      → setup_defaults sys (setup_defaults sys p) ≡ setup_defaults sys p
  unfolding setup_defaults
  setup_defaults_idem p = λ i. record (setup_defaults sys p) {
    network = or_text_idem (bytes "tcp") p.network i;
    host = or_text_idem (bytes "localhost") p.host i;
    log_dir = or_text_idem (sys.default_dir (bytes "logs")) p.log_dir i;
    pact_dir = or_text_idem (sys.default_dir (bytes "pacts")) p.pact_dir i;
    specification_version = or_number_idem 2 p.specification_version i;
    client_timeout = or_number_idem 10000 p.client_timeout i;
    pact_client =
        or_client_idem (sys.new_client (or_number 10000 (or_number 10000 p.client_timeout)))
          (sys.new_client (or_number 10000 p.client_timeout)) p.pact_client i;
    pact_file_write_mode = or_text_idem (bytes "overwrite") p.pact_file_write_mode i;
  }

  -- The defaults do not read the server.
  defaults_kept :
      (c : Bool) (p : Pact Client Interaction Message) (s : MockServer)
      → setup_defaults sys (record (prepared sys c p) { server = some s })
        ≡ record (prepared sys c p) { server = some s }
  unfolding setup_defaults
  defaults_kept c p s = λ i.
      record (setup_defaults_idem (record (setup_logging p) { tool_validity_check = c }) i) {
        server = some s;
      }

  prepared-IsReady :
      (c : Bool) (p : Pact Client Interaction Message) (s : MockServer)
      → needs_check sys (prepared sys c p) ≡ false
      → IsReady (record (prepared sys c p) { server = some s })
  unfolding setup_logging
  prepared-IsReady c p s tested =
      let (level, g, same, logs) = IsLogging-inv p.log_filter p refl in
      record {
        tested = unfold setup_defaults in tested;
        filter = g;
        logging =
            unfold setup_defaults in
            ap (λ (q : Pact Client Interaction Message). q.log_filter) same;
        defaults = defaults_kept c p s;
        running = s;
        server = refl;
      }

  -- A `Setup` that is to start the mock server and returns leaves a server, a client, which is that
  -- which was given or a new one with the timeout of the `Pact`, and every field with a default at
  -- what was given or at its default. A logging filter that was given stays, with the level beside it,
  -- and a new one has the level that was given, or INFO. The names, interactions, messages and allowed
  -- ports are unchanged, the tools are not to be checked again, and the defaults leave the `Pact` as it
  -- then is.
  pub setup-IsConfigured :
      (p p' : Pact Client Interaction Message) (w w' : W)
      → setup sys true p w ≡ returns (p', w')
      → IsConfigured p p' × IsReady p'
  unfolding start_if_needed
  setup-IsConfigured p p' w w' e =
      let (c, w₁, tested, started) = setup_inv sys true p p' w w' e in
      let (s, same) =
        start_with_inv sys (prepared sys c p).server (prepared sys c p).pact_client
          (prepared sys c p) p' w₁ w' refl started in
      rw same (prepared-IsConfigured c p (some s), prepared-IsReady c p s tested)

  pub logging_kept :
      (f : Option Text) (g : Text) (p : Pact Client Interaction Message)
      → f ≡ some g
      → logging_with f p ≡ p
  unfolding logging_with
  logging_kept none g p q = absurd (cc)
  logging_kept (some f) g p q = refl

  start_kept :
      (server : Option MockServer) (running : MockServer) (client : Option Client)
      (p : Pact Client Interaction Message) (w : W)
      → server ≡ some running
      → start_with sys server client p w ≡ returns (p, w)
  unfolding start_with
  start_kept none running client p w q = absurd (cc)
  start_kept (some s) running client p w q = refl

  checks_kept :
      (p : Pact Client Interaction Message) (w : W)
      → needs_check sys p ≡ false
      → check_tools sys p w ≡ returns (p, w)
  unfolding check_tools
  checks_kept p w q = rw q refl

  start_if_needed_kept :
      (start : Bool) (p : Pact Client Interaction Message) (w : W)
      → IsReady p
      → start_if_needed sys start p w ≡ returns (p, w)
  unfolding start_if_needed
  start_if_needed_kept false p w ready = refl
  start_if_needed_kept true p w ready =
      start_kept p.server ready.running p.pact_client p w ready.server

  -- A further `Setup` of such a `Pact` changes nothing, starts no server, and does nothing to the
  -- world.
  pub setup_again :
      (p : Pact Client Interaction Message) (start : Bool) (w : W)
      → IsReady p
      → setup sys start p w ≡ returns (p, w)
  unfolding setup setup_logging
  setup_again p start w ready =
      rw (logging_kept p.log_filter ready.filter p ready.logging, checks_kept p w ready.tested)
        (rw (ready.defaults) (start_if_needed_kept start p w ready))

  pub setup_only-IsConfigured :
      (p q : Pact Client Interaction Message) (w w' : W)
      → setup sys false p w ≡ returns (q, w')
      → IsConfigured p q
  unfolding start_if_needed
  setup_only-IsConfigured p q w w' e =
      let (c, w₁, tested, same) = setup_inv sys false p q w w' e in
      let same' = ap (λ (r : Pact Client Interaction Message × W). r.0) (returns_inj same) in
      rw (← same') (prepared-IsConfigured c p (prepared sys c p).server)
