-- ===== src/Runtime/TurnMachine.antt =====
-- packages/runtime/src/turn-machine.ts, and the table of transitions in packages/protocol/src/domain.ts.
pub mod Paths
use qwen_harness.Prelude.{
  ℕ, Bool, true, false, not, List, [], ◌∷◌, ◌++◌, Option, none, some, any, ◌==◌, if◌then◌else◌,
}
use qwen_harness.Protocol.{TerminationReason}

pub data TurnState : Type 0 where
  preparing model_streaming awaiting_approval executing waiting_background compacting recovering
        steering completed cancelled failed blocked budget_exhausted :
      TurnState

-- The place of a state in the enumeration.
unfoldable pub state_index : TurnState → ℕ
state_index TurnState.preparing = 0
state_index TurnState.model_streaming = 1
state_index TurnState.awaiting_approval = 2
state_index TurnState.executing = 3
state_index TurnState.waiting_background = 4
state_index TurnState.compacting = 5
state_index TurnState.recovering = 6
state_index TurnState.steering = 7
state_index TurnState.completed = 8
state_index TurnState.cancelled = 9
state_index TurnState.failed = 10
state_index TurnState.blocked = 11
state_index TurnState.budget_exhausted = 12

abbrev pub same_state : TurnState → TurnState → Bool
same_state a b = state_index a == state_index b

unfoldable pub terminal_turn_states : List TurnState
terminal_turn_states =
    TurnState.completed ∷ TurnState.cancelled ∷ TurnState.failed ∷ TurnState.blocked
    ∷ TurnState.budget_exhausted ∷ []

unfoldable pub is_terminal_turn_state : TurnState → Bool
unfolding terminal_turn_states state_index
is_terminal_turn_state s = any (same_state s) terminal_turn_states

unfoldable pub turn_transitions : TurnState → List TurnState
turn_transitions TurnState.preparing =
    TurnState.model_streaming ∷ TurnState.compacting ∷ TurnState.failed ∷ TurnState.cancelled
    ∷ TurnState.blocked ∷ TurnState.budget_exhausted ∷ []
turn_transitions TurnState.model_streaming =
    TurnState.executing ∷ TurnState.awaiting_approval ∷ TurnState.completed ∷ TurnState.compacting
    ∷ TurnState.recovering ∷ TurnState.steering ∷ TurnState.failed ∷ TurnState.cancelled
    ∷ TurnState.budget_exhausted ∷ []
turn_transitions TurnState.awaiting_approval =
    TurnState.executing ∷ TurnState.model_streaming ∷ TurnState.cancelled ∷ TurnState.failed
    ∷ TurnState.blocked ∷ []
turn_transitions TurnState.executing =
    TurnState.model_streaming ∷ TurnState.awaiting_approval ∷ TurnState.waiting_background
    ∷ TurnState.executing ∷ TurnState.recovering ∷ TurnState.steering ∷ TurnState.completed
    ∷ TurnState.failed ∷ TurnState.cancelled ∷ TurnState.budget_exhausted ∷ []
turn_transitions TurnState.waiting_background =
    TurnState.executing ∷ TurnState.model_streaming ∷ TurnState.completed ∷ TurnState.cancelled
    ∷ TurnState.failed ∷ TurnState.blocked ∷ []
turn_transitions TurnState.compacting =
    TurnState.model_streaming ∷ TurnState.preparing ∷ TurnState.failed ∷ TurnState.cancelled ∷ []
turn_transitions TurnState.recovering =
    TurnState.model_streaming ∷ TurnState.executing ∷ TurnState.compacting ∷ TurnState.failed
    ∷ TurnState.cancelled ∷ TurnState.blocked ∷ []
turn_transitions TurnState.steering =
    TurnState.model_streaming ∷ TurnState.executing ∷ TurnState.cancelled ∷ TurnState.failed ∷ []
turn_transitions TurnState.completed = []
turn_transitions TurnState.cancelled = []
turn_transitions TurnState.failed = []
turn_transitions TurnState.blocked = []
turn_transitions TurnState.budget_exhausted = []

unfoldable pub can_transition_turn : TurnState → TurnState → Bool
unfolding turn_transitions state_index
can_transition_turn from to = any (same_state to) (turn_transitions from)

pub record TurnMachine : Type 0 where
  pub state : TurnState
  pub reason : Option TerminationReason
  pub history : List TurnState

-- The constructor.
unfoldable pub new_machine : TurnState → TurnMachine
new_machine restored_state = record {
  state = restored_state;
  reason = none;
  history = restored_state ∷ [];
}

pub data TransitionError : Type 0 where
  already_terminal illegal : TransitionError

-- The machine after a call, or the error that was thrown, which leaves it as it was.
pub data Transition : Type 0 where
  moved : TurnMachine → Transition
  thrown : TransitionError → Transition

unfoldable pub transition : TurnMachine → TurnState → Transition
unfolding is_terminal_turn_state can_transition_turn
transition m to =
    if is_terminal_turn_state m.state
    then Transition.thrown TransitionError.already_terminal
    else if not (can_transition_turn m.state to)
    then Transition.thrown TransitionError.illegal
    else Transition.moved (record m { state = to; history = m.history ++ to ∷ [] })

-- `this.#reason = reason`, behind the transition
unfoldable pub with_reason : Transition → TerminationReason → Transition
with_reason (Transition.moved m) reason = Transition.moved (record m { reason = some reason })
with_reason (Transition.thrown e) reason = Transition.thrown e

-- The states that `terminate` takes.
pub data TerminalState : Type 0 where
  completed cancelled failed blocked budget_exhausted : TerminalState

abbrev pub of_terminal : TerminalState → TurnState
of_terminal TerminalState.completed = TurnState.completed
of_terminal TerminalState.cancelled = TurnState.cancelled
of_terminal TerminalState.failed = TurnState.failed
of_terminal TerminalState.blocked = TurnState.blocked
of_terminal TerminalState.budget_exhausted = TurnState.budget_exhausted

unfoldable pub terminate : TurnMachine → TerminalState → TerminationReason → Transition
unfolding transition with_reason
terminate m state reason = with_reason (transition m (of_terminal state)) reason
