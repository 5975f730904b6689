-- ===== src/Client/ServiceManager/Registry.antt =====
-- `processMap` of client/service_manager.go as a map.
use pact_go.Common.{
  ℕ, ◌==◌, Option, none, some, [], ◌∷◌, ◌≡◌, ◌≢◌, refl, sym, ap, ◌∙◌, if◌then◌else◌, arith,
  Bool-cases, inl, inr,
}
use pact_go.Client.ServiceManager.{Cmd, ProcessMap, get, set, delete, store, discard}

-- No key stands in the map.
abbrev pub Lacks : ℕ → ProcessMap → Type 0
Lacks k [] = Unit
Lacks k ((i, c) ∷ m) = (i ≢ k) × Lacks k m

-- Every key stands once, and is the pid of its command.
abbrev pub IsRegistry : ProcessMap → Type 0
IsRegistry [] = Unit
IsRegistry ((i, c) ∷ m) = (c.process ≡ some i) × Lacks i m × IsRegistry m

pub get-Lacks : (k : ℕ) (m : ProcessMap) → Lacks k m → get k m ≡ none
unfolding get
get-Lacks k [] h = refl
get-Lacks k ((i, c) ∷ m) h = ground (arith, get-Lacks k m h.1)

pub get-set :
    (k j : ℕ) (v : Cmd) (m : ProcessMap) → get j (set k v m) ≡ (if k == j then some v else get j m)
unfolding get set
get-set k j v [] = refl
get-set k j v ((i, c) ∷ m) = ground (arith, get-set k j v m)

set-Lacks : (k j : ℕ) (v : Cmd) (m : ProcessMap) → k ≢ j → Lacks j m → Lacks j (set k v m)
unfolding set
set-Lacks k j v [] d h = (d, tt)
set-Lacks k j v ((i, c) ∷ m) d h = elim (Bool-cases (i == k)) [
  | inl same ↦ rw same h
  | inr differs ↦ rw differs (h.0, set-Lacks k j v m d h.1)
]

delete-Lacks : (k j : ℕ) (m : ProcessMap) → Lacks j m → Lacks j (delete k m)
unfolding delete
delete-Lacks k j [] h = tt
delete-Lacks k j ((i, c) ∷ m) h = elim (Bool-cases (i == k)) [
  | inl same ↦ rw same h.1
  | inr differs ↦ rw differs (h.0, delete-Lacks k j m h.1)
]

delete-Lacks_self : (k : ℕ) (m : ProcessMap) → IsRegistry m → Lacks k (delete k m)
unfolding delete
delete-Lacks_self k [] r = tt
delete-Lacks_self k ((i, c) ∷ m) r = elim (Bool-cases (i == k)) [
  | inl same ↦ let e : i ≡ k = ground arith in rw same (rw e at r.1)
  | inr differs ↦ rw differs (ground arith, delete-Lacks_self k m r.2)
]

pub set-IsRegistry :
    (k : ℕ) (v : Cmd) (m : ProcessMap) → v.process ≡ some k → IsRegistry m → IsRegistry (set k v m)
unfolding set
set-IsRegistry k v [] e r = (e, tt, tt)
set-IsRegistry k v ((i, c) ∷ m) e r = elim (Bool-cases (i == k)) [
  | inl same ↦ let q : i ≡ k = ground arith in rw same (e ∙ ap some (sym q), r.1, r.2)
  | inr differs ↦ rw differs (r.0, set-Lacks k i v m (ground arith) r.1, set-IsRegistry k v m e r.2)
]

pub delete-IsRegistry : (k : ℕ) (m : ProcessMap) → IsRegistry m → IsRegistry (delete k m)
unfolding delete
delete-IsRegistry k [] r = tt
delete-IsRegistry k ((i, c) ∷ m) r = elim (Bool-cases (i == k)) [
  | inl same ↦ rw same r.2
  | inr differs ↦ rw differs (r.0, delete-Lacks k i m r.1, delete-IsRegistry k m r.2)
]

-- A key that is deleted from a registry has no value; the others keep theirs.
pub get-delete :
    (k j : ℕ) (m : ProcessMap)
    → IsRegistry m
    → get j (delete k m) ≡ (if k == j then none else get j m)
unfolding get delete
get-delete k j [] r = ground arith
get-delete k j ((i, c) ∷ m) r = elim (Bool-cases (i == k)) [
  | inl same ↦ rw same (ground (arith, get-Lacks i m r.1))
  | inr differs ↦ rw differs (ground (arith, get-delete k j m r.2))
]

-- What is stored under a key has that pid.
pub get-process :
    (k : ℕ) (c : Cmd) (m : ProcessMap) → IsRegistry m → get k m ≡ some c → c.process ≡ some k
unfolding get
get-process k c [] r e = absurd (cc)
get-process k c ((i, d) ∷ m) r e = ground (arith, get-process k c m r.2)

pub store-IsRegistry :
    (p : Option ℕ) (c : Cmd) (m : ProcessMap)
    → c.process ≡ p
    → IsRegistry m
    → IsRegistry (store p c m)
unfolding store
store-IsRegistry none c m e r = r
store-IsRegistry (some pid) c m e r = set-IsRegistry pid c m e r

pub discard-IsRegistry : (p : Option ℕ) (m : ProcessMap) → IsRegistry m → IsRegistry (discard p m)
unfolding discard
discard-IsRegistry none m r = r
discard-IsRegistry (some pid) m r = delete-IsRegistry pid m r
