-- ===== src/Client/ServiceManager.antt =====
-- client/service_manager.go: a manager of processes, and its two monitors. The monitors and the
-- functions of the package run side by side: a step of the relation is what one of them does
-- between two synchronisations.
pub mod Registry
pub mod Steps
pub mod Refinement
pub mod Rounds
use pact_go.Common.{
  ℕ, ◌==◌, Text, Error, Bool, true, false, Option, none, some, List, [], ◌∷◌, ◌++◌, if◌then◌else◌,
}

-- An `exec.Cmd`; `process` is the pid of its process, once it runs.
pub record Cmd : Type 0 where
  pub path : Text
  pub args : List Text
  pub env : List Text
  pub process : Option ℕ

-- `processMap`: each of its methods holds the lock, so it is one step.
abbrev pub ProcessMap : Type 0
ProcessMap = List (ℕ × Cmd)

unfoldable pub get : ℕ → ProcessMap → Option Cmd
get k [] = none
get k ((i, c) ∷ m) = if i == k then some c else get k m

unfoldable pub set : ℕ → Cmd → ProcessMap → ProcessMap
set k v [] = (k, v) ∷ []
set k v ((i, c) ∷ m) = if i == k then (i, v) ∷ m else (i, c) ∷ set k v m

unfoldable pub delete : ℕ → ProcessMap → ProcessMap
delete k [] = []
delete k ((i, c) ∷ m) = if i == k then m else (i, c) ∷ delete k m

-- `ServiceManager`. Its two channels have no buffer: `adding` is the command that the add monitor
-- has received and not yet stored, `stopping` are the commands that calls of `Stop` have sent or
-- wait to send to the remove monitor.
pub record ServiceManager : Type 0 where
  pub cmd : Text
  pub process_map : ProcessMap
  pub args : List Text
  pub env : List Text
  pub adding : Option Cmd
  pub stopping : List Cmd

-- `Setup`
unfoldable pub setup : ServiceManager → ServiceManager
setup s = record s { process_map = []; adding = none; stopping = [] }

-- `Command`, with the environment of the program.
unfoldable pub command : List Text → ServiceManager → Cmd
command environ s = record { path = s.cmd; args = s.args; env = environ ++ s.env; process = none }

-- What the add monitor does with a command.
unfoldable pub store : Option ℕ → Cmd → ProcessMap → ProcessMap
store none c m = m
store (some pid) c m = set pid c m

-- What the remove monitor does with a command, the interrupt that it sends left out.
unfoldable pub discard : Option ℕ → ProcessMap → ProcessMap
discard none m = m
discard (some pid) m = delete pid m

-- The add monitor ends its round.
unfoldable pub add_round : Cmd → ServiceManager → ServiceManager
add_round c s = record s { process_map = store c.process c s.process_map; adding = none }

-- The remove monitor takes a command and ends its round; `rest` are the others.
unfoldable pub remove_round : Cmd → List Cmd → ServiceManager → ServiceManager
remove_round c rest s = record s { process_map = discard c.process s.process_map; stopping = rest }

-- How the two waits of `Stop` end: the process ended, with the error of `Wait`, or the time ran out
-- and the process was killed, with the error of `Kill`.
pub data Ending : Type 0 where
  finished : Option Error → Ending
  timed_out : Option Error → Ending

unfoldable pub stop_result : Ending → Bool × Option Error
stop_result (finished none) = (true, none)
stop_result (finished (some e)) = (false, some e)
stop_result (timed_out none) = (true, none)
stop_result (timed_out (some e)) = (false, some e)

-- `List`
unfoldable pub list : ServiceManager → ProcessMap
list s = s.process_map
