-- ===== src/Tests/Messages.antt =====
-- A request for a message on concrete handlers. The world is the list of what happened, the latest
-- first.
use pact_go.Common.{
  ℕ, Text, bytes, Result, ok, err, Option, none, some, List, [], ◌∷◌, ◌≡◌, refl, text_eq,
}
use pact_go.Common.Steps.{unless_failed}
use pact_go.Dsl.Matcher.{Entries}
use pact_go.Dsl.Hooks.{find_handler}
use pact_go.Dsl.Messages.{
  State, Message, StateHandler, MessageHandler, run_state, run_states, write_result, handle_message,
  after_states, message_verification_handler,
}
use pact_go.Dsl.Messages.Statuses.{Answered, message_verification_handler-Answered}

abbrev Log : Type 0
Log = List ℕ

abbrev state_named : Text → State ℕ
state_named name = record { name = name; params = [] }

abbrev created : Message ℕ ℕ
created = record {
  content = none;
  content_raw = none;
  states =
      state_named (bytes "logged in")
      ∷ state_named (bytes "unknown")
      ∷ state_named (bytes "user exists")
      ∷ [];
  metadata = Entries.end;
  description = bytes "user created";
  message_type = none;
  args = [];
}

abbrev decode : Text → Result (Message ℕ ℕ)
decode [] = err (bytes "no JSON")
decode (c ∷ s) = ok created

abbrev encode : Option ℕ → Result Text
encode none = ok []
encode (some n) = ok (n ∷ [])

abbrev state_handlers : List (Text × StateHandler Log ℕ)
state_handlers =
    (bytes "user exists", λ state w. (2 ∷ w, none))
    ∷ (bytes "logged in", λ state w. (1 ∷ w, none))
    ∷ []

abbrev message_handlers : List (Text × MessageHandler Log ℕ ℕ)
message_handlers = (bytes "user created", λ message w. (3 ∷ w, ok (some 7))) ∷ []

run_created :
    message_verification_handler decode encode message_handlers state_handlers (ok (b'1' ∷ [])) []
    ≡ (3 ∷ 2 ∷ 1 ∷ [], record { status = 200; response_body = 7 ∷ [] })
unfolding message_verification_handler after_states handle_message write_result run_states run_state
    unless_failed find_handler text_eq bytes
run_created = refl

message_verification_handler-Answered_example :
    Answered decode encode message_handlers state_handlers
      (ok (b'1' ∷ []))
      []
      (message_verification_handler decode encode message_handlers state_handlers
        (ok (b'1' ∷ []))
        []).0
      (message_verification_handler decode encode message_handlers state_handlers
        (ok (b'1' ∷ []))
        []).1
message_verification_handler-Answered_example =
    message_verification_handler-Answered decode encode message_handlers state_handlers
      (ok (b'1' ∷ [])) []
