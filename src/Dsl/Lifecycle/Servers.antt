-- ===== src/Dsl/Lifecycle/Servers.antt =====
-- dsl/client.go: a server that is started, and stopped.
use mathlib.Core.Path.{subst}
use pact_go.Common.{
  ℕ, Text, bytes, Error, Bool, Outcome, returns, ◌>>=◌, returns_inj, Option, none, some, List, [],
  ◌∷◌, ◌++◌, ◌≡◌, refl, sym, ap, ◌∙◌, arith, inl, inr,
}
use pact_go.Utils.Decimal.{itoa}
use pact_go.Client.ServiceManager.{Cmd, ServiceManager, get, store, add_round, Ending, stop_result}
use pact_go.Client.ServiceManager.Registry.{get-set}
use pact_go.Client.ServiceManager.Steps.{stopped, Reach, here, next, Inv, Step-Inv}
use pact_go.Client.ServiceManager.Rounds.{Queued, Differs, Rounds, work, Rounds-unregister}
use pact_go.Client.Services.{new_mock_service, start, settle, settle_with, stop, stop_found}
use pact_go.Client.Services.Runs.{start-Reach, settle_with-Reach, settled}
use pact_go.Dsl.Pact.{MockServer}
use pact_go.Dsl.Client.{PactClient, Host, spawn_pid}
use pact_go.Dsl.Client.Servers.{server_of, start_server, stop_server}

-- The manager of the mock servers is about to record a command that runs under the pid of the server.
pub record IsStarting (s : ServiceManager) (server : MockServer) : Type 0 where
  pub cmd : Cmd
  pub handed : s.adding ≡ some cmd
  pub runs : cmd.process ≡ some server.pid

Reach-keeps : {s t : ServiceManager} → Reach s t → Inv s → Inv t
Reach-keeps here v = v
Reach-keeps (next r step) v = Step-Inv step (Reach-keeps r v)

start_adding :
    {W : Type 0} (environ : List Text) (spawn : Cmd → W → W × Option ℕ) (s : ServiceManager) (w : W)
    → (start environ spawn s w).0.adding ≡ some (start environ spawn s w).2
unfolding start
start_adding environ spawn s w = refl

new_mock_service-Inv :
    (args : List Text) (s : ServiceManager) → Inv s → Inv (new_mock_service args s)
unfolding new_mock_service
new_mock_service-Inv args s v = record { registry = v.registry; running = v.running }

pub server_of-inv :
    {W : Type 0} (port : ℕ) (process : Option ℕ) (p p' : PactClient) (w w' : W)
    (server : MockServer)
    → ◌>>=◌ {B = PactClient × W × MockServer} (server_of port process) (λ s. returns (p, w, s))
      ≡ returns (p', w', server)
    → (process ≡ some server.pid) × (p ≡ p') × (server.port ≡ port)
server_of-inv port none p p' w w' server h = absurd (cc)
server_of-inv port (some pid) p p' w w' server h =
    let same = returns_inj h in
    (λ i. some (same i).2.pid, λ i. (same i).0, λ i. (sym same i).2.port)

module _ {W : Type 0} (host : Host W) where
  -- A server that `StartServer` gives is being recorded.
  pub start_server-IsStarting :
      (p p' : PactClient) (args : List Text) (port : ℕ) (w w' : W) (server : MockServer)
      → start_server host p args port w ≡ returns (p', w', server)
      → Inv p.pact_mock_svc_manager
      → IsStarting p'.pact_mock_svc_manager server × Inv p'.pact_mock_svc_manager
  unfolding start_server
  start_server-IsStarting p p' args port w w' server h v =
      let all_args = args ++ bytes "--port" ∷ itoa port ∷ [] in
      let svc = new_mock_service all_args p.pact_mock_svc_manager in
      let r = start host.environ (spawn_pid host) svc w in
      let (ran, same, listens) =
        server_of-inv port r.2.process (record p { pact_mock_svc_manager = r.0 }) p' _ w' server
          h in
      let moved = Reach-keeps (start-Reach host.environ (spawn_pid host) svc w) in
      (
        record {
          cmd = r.2;
          handed =
              sym (λ i. (same i).pact_mock_svc_manager.adding)
              ∙ start_adding host.environ (spawn_pid host) svc w;
          runs = ran;
        },
        rw (← same) (moved (new_mock_service-Inv all_args p.pact_mock_svc_manager v)),
      )

-- Once it is recorded, the map has the command under the pid of the server.
settle_with-get :
    (adding : Option Cmd) (s : ServiceManager) (pid : ℕ) (cmd : Cmd)
    → adding ≡ some cmd
    → cmd.process ≡ some pid
    → get pid (settle_with adding s).process_map ≡ some cmd
unfolding add_round store
settle_with-get none s pid cmd e ran = absurd (cc)
settle_with-get (some c) s pid cmd e ran =
    let same : c ≡ cmd = ap (λ (o : Option Cmd). elim o [ some x ↦ x | none ↦ c ]) e in
    (λ i. get pid (store (((λ j. (same j).process) ∙ ran) i) (same i) s.process_map))
    ∙ get-set pid pid cmd s.process_map
    ∙ ground arith

abbrev after_stop :
    PactClient
    → MockServer
    → Outcome (ServiceManager × Bool × Option Error)
    → Outcome (PactClient × MockServer × Option Error)
after_stop p server r = r >>= λ (svc, done, e).
    returns (record p { pact_mock_svc_manager = svc }, record server { error = e }, e)

-- A server that is recorded is stopped: its command waits for the remove monitor.
pub stop_server-recorded :
    (p : PactClient) (server : MockServer) (ending : Ending)
    → (h : IsStarting p.pact_mock_svc_manager server)
    → let s = settle p.pact_mock_svc_manager in
      stop_server ending (record p { pact_mock_svc_manager = s }) server
      ≡ returns (
        record p { pact_mock_svc_manager = record s { stopping = s.stopping ++ h.cmd ∷ [] } },
        record server { error = (stop_result ending).1 },
        (stop_result ending).1,
      )
unfolding stop_server stop settle
stop_server-recorded p server ending h =
    let s = settle p.pact_mock_svc_manager in
    let there =
      settle_with-get p.pact_mock_svc_manager.adding p.pact_mock_svc_manager server.pid h.cmd
        h.handed h.runs in
    ap (λ found. after_stop p server (stop_found found ending s)) there

Queued-append :
    (pid : ℕ) (cs : List Cmd) (c : Cmd) → c.process ≡ some pid → Queued pid (cs ++ c ∷ [])
Queued-append pid [] c e = inl e
Queued-append pid (d ∷ cs) c e = inr (Queued-append pid cs c e)

-- A manager that has recorded the server and was told to stop it.
abbrev pub stopping :
    {server : MockServer} (s : ServiceManager) → IsStarting s server → ServiceManager
stopping s h = record (settle s) { stopping = (settle s).stopping ++ h.cmd ∷ [] }

-- Its monitors can end their work, and when they have, the pid stands in the map no longer.
pub stopping-unregisters :
    (s : ServiceManager) (server : MockServer) (h : IsStarting s server)
    → Inv s
    → let t = stopping s h in
      ((u : ServiceManager) × Rounds (work t) t u)
      × ((u : ServiceManager) → Rounds (work t) t u → get server.pid u.process_map ≡ none)
unfolding settle
stopping-unregisters s server h v =
    let there = settle_with-get s.adding s server.pid h.cmd h.handed h.runs in
    let v' = Reach-keeps (settle_with-Reach s.adding s refl) v in
    Rounds-unregister (stopping s h) server.pid
      (Step-Inv (stopped (settle s) server.pid h.cmd there) v')
      (Queued-append server.pid (settle s).stopping h.cmd h.runs)
      (subst (λ adding. Differs server.pid adding) (sym (settled s.adding s refl)) tt)
