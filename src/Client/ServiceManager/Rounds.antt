-- ===== src/Client/ServiceManager/Rounds.antt =====
-- client/service_manager.go: the monitors end their work, and what is left of it then.
use pact_go.Common.{
  ℕ, zero, suc, ◌+◌, Option, none, some, List, [], ◌∷◌, ◌++◌, ◌≡◌, ◌≢◌, ◌⊎◌, inl, inr, refl, ap,
  ◌∙◌, arith, ◌==◌, Bool-cases,
}
use pact_go.Common.Lists.{length}
use pact_go.Client.ServiceManager.{
  Cmd, get, store, discard, ServiceManager, add_round, remove_round,
}
use pact_go.Client.ServiceManager.Registry.{IsRegistry, get-set, get-delete}
use pact_go.Client.ServiceManager.Steps.{Round, added, removed, Inv, Round-Inv}

-- `n` rounds of the monitors, with no call between them.
pub data Rounds : ℕ → ServiceManager → ServiceManager → Type 0 where
  here : {s : ServiceManager} → Rounds zero s s
  next : {n : ℕ} {s t u : ServiceManager} → Round s t → Rounds n t u → Rounds (suc n) s u

abbrev pub count : Option Cmd → ℕ
count none = 0
count (some c) = 1

-- How many rounds are left to do.
abbrev pub work : ServiceManager → ℕ
work s = count s.adding + length s.stopping

length-middle :
    (before after : List Cmd) (c : Cmd)
    → length (before ++ c ∷ after) ≡ suc (length (before ++ after))
length-middle [] after c = refl
length-middle (d ∷ before) after c = ap suc (length-middle before after c)

Round-work : {s t : ServiceManager} → Round s t → suc (work t) ≡ work s
unfolding add_round remove_round
Round-work (added s c e) = rw e (omega arith)
Round-work (removed s before after c e) = rw e (omega (arith, length-middle before after c))

Rounds-work : {n : ℕ} {s t : ServiceManager} → Rounds n s t → n + work t ≡ work s
Rounds-work here = omega arith
Rounds-work (next r rest) = omega (arith, Round-work r, Rounds-work rest)

work-Round :
    (s : ServiceManager) (adding : Option Cmd) (stopping : List Cmd) (n : ℕ)
    → s.adding ≡ adding
    → s.stopping ≡ stopping
    → count adding + length stopping ≡ suc n
    → (t : ServiceManager) × Round s t
work-Round s (some c) stopping n p q e = (add_round c s, added s c p)
work-Round s none (c ∷ cs) n p q e = (remove_round c cs s, removed s [] cs c q)
work-Round s none [] n p q e = absurd (omega arith)

work-Rounds : (n : ℕ) (s : ServiceManager) → work s ≡ n → (t : ServiceManager) × Rounds n s t
work-Rounds zero s e = (s, here)
work-Rounds (suc n) s e =
    let (t, r) = work-Round s s.adding s.stopping n refl refl e in
    let (u, rest) = work-Rounds n t (omega (arith, Round-work r)) in (u, next r rest)

-- A command of this pid waits for the remove monitor.
abbrev pub Queued : ℕ → List Cmd → Type 0
Queued pid [] = ⊥
Queued pid (c ∷ cs) = (c.process ≡ some pid) ⊎ Queued pid cs

Queued-middle :
    (pid : ℕ) (before after : List Cmd) (c : Cmd)
    → Queued pid (before ++ c ∷ after)
    → (c.process ≡ some pid) ⊎ Queued pid (before ++ after)
Queued-middle pid [] after c q = q
Queued-middle pid (d ∷ before) after c (inl e) = inr (inl e)
Queued-middle pid (d ∷ before) after c (inr q) = elim (Queued-middle pid before after c q) [
  | inl e ↦ inl e
  | inr q' ↦ inr (inr q')
]

-- The command that the add monitor holds has another pid.
abbrev pub Differs : ℕ → Option Cmd → Type 0
Differs pid none = Unit
Differs pid (some c) = c.process ≢ some pid

-- The pid is on its way out.
record Leaving (pid : ℕ) (s : ServiceManager) : Type 0 where
  gone : (get pid s.process_map ≡ none) ⊎ Queued pid s.stopping
  other : Differs pid s.adding

store-none :
    (pid : ℕ) (p : Option ℕ) (c : Cmd) (m : List (ℕ × Cmd))
    → p ≢ some pid
    → get pid (store p c m) ≡ get pid m
unfolding store
store-none pid none c m d = refl
store-none pid (some k) c m d = get-set k pid c m ∙ elim (Bool-cases (k == pid)) [
  | inl same ↦ let e : k ≡ pid = ground arith in absurd (d (ap some e))
  | inr differs ↦ rw differs refl
]

discard_same : (pid : ℕ) (m : List (ℕ × Cmd)) → IsRegistry m → get pid (discard (some pid) m) ≡ none
unfolding discard
discard_same pid m r = get-delete pid pid m r ∙ ground arith

discard-keeps :
    (pid : ℕ) (p : Option ℕ) (m : List (ℕ × Cmd))
    → IsRegistry m
    → get pid m ≡ none
    → get pid (discard p m) ≡ none
unfolding discard
discard-keeps pid none m r e = e
discard-keeps pid (some k) m r e = get-delete k pid m r ∙ ground (arith, e)

Round-Leaving : {s t : ServiceManager} (pid : ℕ) → Round s t → Inv s → Leaving pid s → Leaving pid t
unfolding add_round remove_round
Round-Leaving pid (added s c e) v l = record {
  gone = elim l.gone [
    | inl none_there ↦ inl (store-none pid c.process c s.process_map (rw e at l.other) ∙ none_there)
    | inr queued ↦ inr queued
  ];
  other = tt;
}
Round-Leaving pid (removed s before after c e) v l = record {
  gone = elim l.gone [
    | inl none_there ↦ inl (discard-keeps pid c.process s.process_map v.registry none_there)
    | inr queued ↦ elim (Queued-middle pid before after c (rw e at queued)) [
      | inl same ↦ inl (rw same (discard_same pid s.process_map v.registry))
      | inr rest ↦ inr rest
    ]
  ];
  other = l.other;
}

Rounds-Leaving :
    {n : ℕ} {s t : ServiceManager} (pid : ℕ) → Rounds n s t → Inv s → Leaving pid s → Leaving pid t
Rounds-Leaving pid here v l = l
Rounds-Leaving pid (next r rest) v l =
    Rounds-Leaving pid rest (Round-Inv r v) (Round-Leaving pid r v l)

none-Queued : (pid : ℕ) (cs : List Cmd) → length cs ≡ 0 → Queued pid cs → ⊥
none-Queued pid [] e q = q
none-Queued pid (c ∷ cs) e q = omega arith

-- From a state that a manager reaches, the monitors can do as many rounds as commands wait for them,
-- and once they have done so many, in whatever order, the pid of a command that was to be stopped
-- stands in the process map no longer, if the command that was to be added had another pid.
pub Rounds-unregister :
    (s : ServiceManager) (pid : ℕ)
    → Inv s
    → Queued pid s.stopping
    → Differs pid s.adding
    → ((t : ServiceManager) × Rounds (work s) s t)
      × ((t : ServiceManager) → Rounds (work s) s t → get pid t.process_map ≡ none)
Rounds-unregister s pid v queued other = (
  work-Rounds (work s) s refl,
  λ t r. elim (Rounds-Leaving pid r v (record { gone = inr queued; other = other })).gone [
    | inl none_there ↦ none_there
    | inr left ↦ absurd (none-Queued pid t.stopping (omega (arith, Rounds-work r)) left)
  ],
)
