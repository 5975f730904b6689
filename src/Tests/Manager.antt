-- ===== src/Tests/Manager.antt =====
-- A run of a manager of mock servers: a server is started, stored, and stopped.
use pact_go.Common.{
  ℕ, ◌+◌, bytes, Error, returns, panics, Bool, true, Option, none, some, [], ◌∷◌, ◌≡◌, inl, refl,
}
use pact_go.Client.ServiceManager.{
  Cmd, ServiceManager, get, set, store, setup, add_round, remove_round, discard, delete, finished,
  stop_result,
}
use pact_go.Client.ServiceManager.Steps.{
  added, removed, started, stopped, round, Reach, here, next, Inv, Reach-Inv,
}
use pact_go.Client.ServiceManager.Refinement.{view, apply, replay, view-replay}
use pact_go.Client.ServiceManager.Rounds.{Rounds, work, Rounds-unregister}
use pact_go.Client.Services.{start, settle, stop}
use pact_go.Client.Services.Runs.{IsStopped, stop-start}

abbrev pub server_cmd : Cmd
server_cmd = record {
  path = bytes "pact-mock-service";
  args = bytes "service" ∷ [];
  env = [];
  process = some 71;
}

abbrev pub idle : ServiceManager
idle = record {
  cmd = bytes "pact-mock-service";
  process_map = [];
  args = bytes "service" ∷ [];
  env = [];
  adding = none;
  stopping = [];
}

abbrev serving : ServiceManager
serving = record idle { process_map = (71, server_cmd) ∷ [] }

abbrev pub leaving : ServiceManager
leaving = record serving { stopping = server_cmd ∷ [] }

pub run : Reach (setup idle) leaving
unfolding setup add_round store set get
run =
    next
      (next (next here (started (setup idle) server_cmd refl))
        (round (added (record idle { adding = some server_cmd }) server_cmd refl)))
      (stopped serving 71 server_cmd refl)

Reach-Inv_example : Inv leaving
Reach-Inv_example = Reach-Inv idle run

-- The remove monitor has taken the server out.
abbrev gone : ServiceManager
gone = record idle { process_map = [] }

whole_run : Reach (setup idle) gone
unfolding remove_round discard delete
whole_run = next run (round (removed leaving [] [] server_cmd refl))

registered : replay run 71 ≡ some server_cmd
unfolding replay apply run
registered = refl

deregistered : replay whole_run 71 ≡ none
unfolding replay apply whole_run run
deregistered = refl

view-replay_example : view gone 71 ≡ replay whole_run 71
view-replay_example = view-replay idle whole_run 71

Rounds-unregister_example :
    ((t : ServiceManager) × Rounds (work leaving) leaving t)
    × ((t : ServiceManager) → Rounds (work leaving) leaving t → get 71 t.process_map ≡ none)
Rounds-unregister_example = Rounds-unregister leaving 71 (Reach-Inv idle run) (inl refl) tt

abbrev spawn : Cmd → ℕ → ℕ × Option ℕ
spawn c w = (w + 1, some 71)

started_at : (start [] spawn idle 0).2.process ≡ some 71
unfolding start
started_at = refl

absent : get 71 (settle idle).process_map ≡ none
unfolding settle get
absent = refl

stop-start_example :
    (stop 71 (finished none) (start [] spawn idle 0).0 ≡ panics)
    × ((u : ServiceManager) × (done : Bool) × (e : Option Error) × (stop 71
            (finished none)
            (add_round (start [] spawn idle 0).2 (start [] spawn idle 0).0)
          ≡ returns (u, done, e))
        × IsStopped
            (add_round (start [] spawn idle 0).2 (start [] spawn idle 0).0)
            (start [] spawn idle 0).2
            (finished none)
            u
            done
            e)
stop-start_example = stop-start [] spawn idle 0 71 (finished none) started_at absent

stopped_server : stop 71 (finished none) serving ≡ returns (leaving, true, none)
unfolding stop get stop_result
stopped_server = refl
