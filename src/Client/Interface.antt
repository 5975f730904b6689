-- ===== src/Client/Interface.antt =====
-- client/service.go: what dsl/client.go calls of a service, and what the four services of the package
-- give for it.
use pact_go.Common.{ℕ, Text, Error, Outcome, returns, Bool, Option, List}
use pact_go.Client.ServiceManager.{ServiceManager, Cmd, ProcessMap, Ending, setup, list, command}
use pact_go.Client.Services.{start, stop}

-- `Service`, over the state of an implementation.
pub record ServiceMethods (S W : Type 0) : Type 0 where
  pub setup_service : S → S
  pub stop_service : ℕ → S → Outcome (S × Bool × Option Error)
  pub list_service : S → ProcessMap
  pub service_command : S → W → W × Cmd
  pub start_service : S → W → Outcome (S × W × Cmd)
  pub new_service : List Text → S → S

-- A service of the package is a manager with its own `NewService`; `ending` says how the waits for a
-- process that is stopped end.
abbrev pub managed :
    {W : Type 0}
    → List Text
    → (Cmd → W → W × Option ℕ)
    → (ℕ → Ending)
    → (List Text → ServiceManager → ServiceManager)
    → ServiceMethods ServiceManager W
managed environ spawn ending new_service = record {
  setup_service = setup;
  stop_service = λ pid s. stop pid (ending pid) s;
  list_service = list;
  service_command = λ s w. (w, command environ s);
  start_service = λ s w. returns (start environ spawn s w);
  new_service = new_service;
}
