-- ===== src/Client/ServiceManager/Refinement.antt =====
-- client/service_manager.go against a registry that knows only which process stands under a pid.
use pact_go.Common.{ℕ, Option, none, some, ◌≡◌, refl, ◌==◌, ◌∙◌, if◌then◌else◌}
use pact_go.Client.ServiceManager.{
  Cmd, ProcessMap, get, store, discard, ServiceManager, setup, add_round, remove_round,
}
use pact_go.Client.ServiceManager.Registry.{IsRegistry, get-set, get-delete}
use pact_go.Client.ServiceManager.Steps.{
  added, removed, Step, configured, started, stopped, round, Reach, here, next, Inv, Reach-Inv,
}

abbrev pub Registered : Type 0
Registered = ℕ → Option Cmd

-- A registry learns a command under its pid, and forgets a pid; a command with no process it passes
-- over.
abbrev pub learn : Option ℕ → Cmd → Registered → Registered
learn none c f k = f k
learn (some pid) c f k = if pid == k then some c else f k

abbrev pub forget : Option ℕ → Registered → Registered
forget none f k = f k
forget (some pid) f k = if pid == k then none else f k

-- What a step does to a registry: only the two monitors change it.
unfoldable pub apply : {s t : ServiceManager} → Step s t → Registered → Registered
apply (configured s cmd args env) f = f
apply (started s c e) f = f
apply (stopped s pid c e) f = f
apply (round (added s c e)) f = learn c.process c f
apply (round (removed s before after c e)) f = forget c.process f

-- The registry behind the steps of a run, which is empty at first.
unfoldable pub replay : {s t : ServiceManager} → Reach s t → Registered
replay here k = none
replay (next r step) k = apply step (replay r) k

-- What the order and the layout of the process map, the queues and the settings are forgotten of.
abbrev pub view : ServiceManager → Registered
view s k = get k s.process_map

get-store :
    (p : Option ℕ) (c : Cmd) (m : ProcessMap) (k : ℕ)
    → get k (store p c m) ≡ learn p c (λ j. get j m) k
unfolding store
get-store none c m k = refl
get-store (some pid) c m k = get-set pid k c m

get-discard :
    (p : Option ℕ) (m : ProcessMap) (k : ℕ)
    → IsRegistry m
    → get k (discard p m) ≡ forget p (λ j. get j m) k
unfolding discard
get-discard none m k r = refl
get-discard (some pid) m k r = get-delete pid k m r

-- A step does to the process map what it does to the registry.
view-apply :
    {s t : ServiceManager} (step : Step s t) (k : ℕ) → Inv s → view t k ≡ apply step (view s) k
unfolding apply add_round remove_round
view-apply (configured s cmd args env) k v = refl
view-apply (started s c e) k v = refl
view-apply (stopped s pid c e) k v = refl
view-apply (round (added s c e)) k v = get-store c.process c s.process_map k
view-apply (round (removed s before after c e)) k v =
    get-discard c.process s.process_map k v.registry

-- Whatever is started and stopped on a manager that `Setup` has made, and however its monitors run
-- beside it, the process map has under every pid what a registry has that is empty at first and goes
-- through the same steps: a round of the add monitor puts its command under the pid of its process,
-- a round of the remove monitor takes the pid of its command out, and no other step changes anything.
pub view-replay :
    (s : ServiceManager) {t : ServiceManager} (r : Reach (setup s) t) (k : ℕ)
    → view t k ≡ replay r k
unfolding replay setup get
view-replay s here k = refl
view-replay s (next {t} r step) k =
    view-apply step k (Reach-Inv s r) ∙ (λ i. apply step (λ j. view-replay s r j i) k)
