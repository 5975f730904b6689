-- ===== src/Client/Services/Runs.antt =====
-- The calls of client/service_manager.go as runs of the step relation.
use pact_go.Common.{
  ℕ, Text, Error, returns, panics, Bool, true, Option, none, some, List, [], ◌∷◌, ◌++◌, ◌≡◌, refl,
  ap, ◌∙◌, arith, ◌↔◌,
}
use pact_go.Client.ServiceManager.{
  Cmd, ServiceManager, get, store, add_round, Ending, finished, timed_out, stop_result,
}
use pact_go.Client.ServiceManager.Registry.{get-set}
use pact_go.Client.ServiceManager.Steps.{added, started, round, Reach, here, next}
use pact_go.Client.Services.{settle_with, settle, start, stop_found, stop}

pub settle_with-Reach :
    (adding : Option Cmd) (s : ServiceManager) → s.adding ≡ adding → Reach s (settle_with adding s)
settle_with-Reach none s e = here
settle_with-Reach (some c) s e = next here (round (added s c e))

pub settled :
    (adding : Option Cmd) (s : ServiceManager)
    → s.adding ≡ adding
    → (settle_with adding s).adding ≡ none
unfolding add_round
settled none s e = e
settled (some c) s e = refl

-- `Start` is a run of the relation, in which the add monitor ends the round that it is in.
pub start-Reach :
    {W : Type 0} (environ : List Text) (spawn : Cmd → W → W × Option ℕ) (s : ServiceManager) (w : W)
    → Reach s (start environ spawn s w).0
unfolding start settle
start-Reach environ spawn s w =
    next (settle_with-Reach s.adding s refl)
      (started (settle_with s.adding s) _ (settled s.adding s refl))

-- The error of the wait that ends a `Stop`: that of `Wait`, or that of `Kill` when the time ran out.
abbrev pub error_of : Ending → Option Error
error_of (finished e) = e
error_of (timed_out e) = e

stop_result-error_of :
    (ending : Ending)
    → (((stop_result ending).0 ≡ true) ↔ (error_of ending ≡ none))
      × ((stop_result ending).1 ≡ error_of ending)
unfolding stop_result
stop_result-error_of (finished none) = ((λ h. refl, λ h. refl), refl)
stop_result-error_of (finished (some e)) = ((λ h. absurd (cc), λ h. absurd (cc)), refl)
stop_result-error_of (timed_out none) = ((λ h. refl, λ h. refl), refl)
stop_result-error_of (timed_out (some e)) = ((λ h. absurd (cc), λ h. absurd (cc)), refl)

-- The command is queued for the remove monitor, and the result says how its end went.
pub record IsStopped (t : ServiceManager) (c : Cmd) (ending : Ending) (u : ServiceManager)
    (done : Bool) (e : Option Error) : Type 0 where
  pub queued : u ≡ record t { stopping = t.stopping ++ c ∷ [] }
  pub succeeded : (done ≡ true) ↔ (error_of ending ≡ none)
  pub failed : e ≡ error_of ending

stop_found-IsStopped :
    (found : Option Cmd) (c : Cmd) (ending : Ending) (t : ServiceManager)
    → found ≡ some c
    → (u : ServiceManager) × (done : Bool) × (e : Option Error) × (stop_found found ending t
        ≡ returns (u, done, e))
      × IsStopped t c ending u done e
stop_found-IsStopped found c ending t there =
    let (succeeded, failed) = stop_result-error_of ending in
    (
      record t { stopping = t.stopping ++ c ∷ [] },
      (stop_result ending).0,
      (stop_result ending).1,
      ap (λ (x : Option Cmd). stop_found x ending t) there,
      record { queued = refl; succeeded = succeeded; failed = failed },
    )

-- The map holds a command under its pid once the add monitor has stored it.
get-add_round :
    (c : Cmd) (pid : ℕ) (t : ServiceManager)
    → c.process ≡ some pid
    → get pid (add_round c t).process_map ≡ some c
unfolding add_round store
get-add_round c pid t ran =
    (λ i. get pid (store (ran i) c t.process_map)) ∙ get-set pid pid c t.process_map ∙ ground arith

-- A process that `Start` has just given, with a pid that the map does not hold yet, ends the program
-- when it is stopped before the add monitor has stored it. Once that has ended its round, `Stop`
-- returns: the command of the `Start` is then queued for the remove monitor, and the result is the
-- error of the wait or of the kill, and true exactly if there is none.
pub stop-start :
    {W : Type 0} (environ : List Text) (spawn : Cmd → W → W × Option ℕ) (s : ServiceManager) (w : W)
    (pid : ℕ) (ending : Ending)
    → (start environ spawn s w).2.process ≡ some pid
    → get pid (settle s).process_map ≡ none
    → (stop pid ending (start environ spawn s w).0 ≡ panics)
      × ((u : ServiceManager) × (done : Bool) × (e : Option Error) × (stop pid ending
              (add_round (start environ spawn s w).2 (start environ spawn s w).0)
            ≡ returns (u, done, e))
          × IsStopped
              (add_round (start environ spawn s w).2 (start environ spawn s w).0)
              (start environ spawn s w).2
              ending
              u
              done
              e)
unfolding start stop
stop-start environ spawn s w pid ending ran absent =
    let c = (start environ spawn s w).2 in
    let t = (start environ spawn s w).0 in
    (
      rw absent refl,
      stop_found-IsStopped (get pid (add_round c t).process_map) c ending (add_round c t)
          (get-add_round c pid t ran),
    )
