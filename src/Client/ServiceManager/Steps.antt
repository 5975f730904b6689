-- ===== src/Client/ServiceManager/Steps.antt =====
-- What the functions and the monitors of client/service_manager.go do side by side.
use pact_go.Common.{ℕ, Text, none, some, List, [], ◌∷◌, ◌++◌, ◌≡◌, ◌≢◌, refl}
use pact_go.Common.Lists.{All, All-append}
use pact_go.Client.ServiceManager.{Cmd, get, ServiceManager, setup, add_round, remove_round}
use pact_go.Client.ServiceManager.Registry.{
  IsRegistry, get-process, store-IsRegistry, discard-IsRegistry,
}

-- A round of a monitor.
pub data Round : ServiceManager → ServiceManager → Type 0 where
  added : (s : ServiceManager) (c : Cmd) → s.adding ≡ some c → Round s (add_round c s)
  removed :
      (s : ServiceManager) (before after : List Cmd) (c : Cmd)
      → s.stopping ≡ before ++ c ∷ after
      → Round s (remove_round c (before ++ after) s)

-- `NewService` sets what the next command is made of. `Start` hands its command to the add monitor,
-- which must have ended its round before; `Stop` of a pid that has a command queues it. A `Stop` of
-- any other pid is no step, since its `cmd.Wait()` on nil ends the program.
pub data Step : ServiceManager → ServiceManager → Type 0 where
  configured :
      (s : ServiceManager) (cmd : Text) (args env : List Text)
      → Step s (record s { cmd = cmd; args = args; env = env })
  started : (s : ServiceManager) (c : Cmd) → s.adding ≡ none → Step s (record s { adding = some c })
  stopped :
      (s : ServiceManager) (pid : ℕ) (c : Cmd)
      → get pid s.process_map ≡ some c
      → Step s (record s { stopping = s.stopping ++ c ∷ [] })
  round : {s t : ServiceManager} → Round s t → Step s t

pub data Reach (s : ServiceManager) : ServiceManager → Type 0 where
  here : Reach s s
  next : {t u : ServiceManager} → Reach s t → Step t u → Reach s u

-- The commands of the map stand under their pids, once each, and those that are to be removed run.
pub record Inv (s : ServiceManager) : Type 0 where
  pub registry : IsRegistry s.process_map
  pub running : All (λ (c : Cmd). c.process ≢ none) s.stopping

All-middle :
    (P : Cmd → Type 0) (before after : List Cmd) (c : Cmd)
    → All P (before ++ c ∷ after)
    → All P (before ++ after)
All-middle P [] after c h = h.1
All-middle P (d ∷ before) after c h = (h.0, All-middle P before after c h.1)

pub Round-Inv : {s t : ServiceManager} → Round s t → Inv s → Inv t
unfolding add_round remove_round
Round-Inv (added s c e) v = record {
  registry = store-IsRegistry c.process c s.process_map refl v.registry;
  running = v.running;
}
Round-Inv (removed s before after c e) v = record {
  registry = discard-IsRegistry c.process s.process_map v.registry;
  running = All-middle _ before after c (rw e at v.running);
}

pub Step-Inv : {s t : ServiceManager} → Step s t → Inv s → Inv t
Step-Inv (configured s cmd args env) v = record { registry = v.registry; running = v.running }
Step-Inv (started s c e) v = record { registry = v.registry; running = v.running }
Step-Inv (stopped s pid c e) v = record {
  registry = v.registry;
  running =
      All-append _ s.stopping (c ∷ []) v.running
        (let q = get-process pid c s.process_map v.registry e in (cc, tt));
}
Step-Inv (round r) v = Round-Inv r v

-- From a manager that `Setup` has made, whatever is started and stopped and however the monitors run
-- beside it, each command of the process map stands there once and under its own pid, and every
-- command that waits to be removed has a process.
pub Reach-Inv : (s : ServiceManager) {t : ServiceManager} → Reach (setup s) t → Inv t
unfolding setup
Reach-Inv s here = record { registry = tt; running = tt }
Reach-Inv s (next r step) = Step-Inv step (Reach-Inv s r)
