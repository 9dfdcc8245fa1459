-- ===== src/Runtime/TurnMachine/Paths.antt =====
-- packages/runtime/src/turn-machine.ts: the path that a turn takes.
use qwen_harness.Prelude.{
  Bool, true, false, not, ◌||◌, ◌⊎◌, List, [], ◌∷◌, ◌++◌, Option, none, some, ◌≡◌, refl, ap, ◌∙◌,
  Bool-cases, inl, inr, is_none, is_empty,
}
use qwen_harness.Protocol.{TerminationReason}
use qwen_harness.Runtime.TurnMachine.{
  TurnState, TerminalState, of_terminal, is_terminal_turn_state, turn_transitions,
  can_transition_turn, TurnMachine, new_machine, TransitionError, Transition, transition, terminate,
  with_reason,
}

pub data TurnCall : Type 0 where
  transition_to : TurnState → TurnCall
  terminate_with : TerminalState → TerminationReason → TurnCall

-- A call that throws leaves the machine as it was.
abbrev after : TurnMachine → Transition → TurnMachine
after m (Transition.moved m') = m'
after m (Transition.thrown e) = m

abbrev pub call : TurnMachine → TurnCall → TurnMachine
call m (TurnCall.transition_to to) = after m (transition m to)
call m (TurnCall.terminate_with state reason) = after m (terminate m state reason)

abbrev pub run_calls : TurnMachine → List TurnCall → TurnMachine
run_calls m [] = m
run_calls m (c ∷ cs) = run_calls (call m c) cs

-- A path along the legal transitions from a state to another.
abbrev pub IsPath : TurnState → List TurnState → TurnState → Type 0
IsPath from [] to = from ≡ to
IsPath from (s ∷ ss) to = (can_transition_turn from s ≡ true) × IsPath s ss to

IsPath-snoc :
    (from : TurnState) (path : List TurnState) (to last : TurnState)
    → IsPath from path to
    → can_transition_turn to last ≡ true
    → IsPath from (path ++ last ∷ []) last
IsPath-snoc from [] to last h k = (rw h k, refl)
IsPath-snoc from (s ∷ ss) to last h k = (h.0, IsPath-snoc s ss to last h.1 k)

is_terminal_turn_state-of_terminal :
    (s : TerminalState) → is_terminal_turn_state (of_terminal s) ≡ true
unfolding is_terminal_turn_state
is_terminal_turn_state-of_terminal TerminalState.completed = refl
is_terminal_turn_state-of_terminal TerminalState.cancelled = refl
is_terminal_turn_state-of_terminal TerminalState.failed = refl
is_terminal_turn_state-of_terminal TerminalState.blocked = refl
is_terminal_turn_state-of_terminal TerminalState.budget_exhausted = refl

-- The two outcomes of a transition.
transition-cases :
    (m : TurnMachine) (to : TurnState)
    → ((e : TransitionError) × (transition m to ≡ Transition.thrown e))
      ⊎ ((is_terminal_turn_state m.state ≡ false)
          × (can_transition_turn m.state to ≡ true)
          × (transition m to
              ≡ Transition.moved (record m { state = to; history = m.history ++ to ∷ [] })))
unfolding transition
transition-cases m to = elim (Bool-cases (is_terminal_turn_state m.state)) [
  | inl t ↦ inl (TransitionError.already_terminal, rw t refl)
  | inr t ↦ elim (Bool-cases (can_transition_turn m.state to)) [
    | inl c ↦ inr (t, c, rw (t, c) refl)
    | inr c ↦ inl (TransitionError.illegal, rw (t, c) refl)
  ]
]

-- The history is a path from the first state to the present one.
abbrev pub IsTraced : TurnState → TurnMachine → Type 0
IsTraced first m = (path : List TurnState) × (m.history ≡ first ∷ path) × IsPath first path m.state

-- A turn with a reason has ended.
abbrev pub IsReasoned : TurnMachine → Type 0
IsReasoned m = is_none m.reason || is_terminal_turn_state m.state ≡ true

abbrev IsSound : TurnState → TurnMachine → Type 0
IsSound first m = IsTraced first m × IsReasoned m

moved-IsTraced :
    (first : TurnState) (m : TurnMachine) (to : TurnState) (reason : Option TerminationReason)
    → IsTraced first m
    → can_transition_turn m.state to ≡ true
    → IsTraced first (record { state = to; reason = reason; history = m.history ++ to ∷ [] })
moved-IsTraced first m to reason (path, e, h) c =
    (path ++ to ∷ [], ap (λ l. l ++ to ∷ []) e, IsPath-snoc first path m.state to h c)

-- A turn that goes on has no reason yet.
none_of_going :
    (reason : Option TerminationReason) (b : Bool)
    → is_none reason || b ≡ true
    → b ≡ false
    → reason ≡ none
none_of_going none b h f = refl
none_of_going (some r) b h f = cc

call-IsSound :
    (first : TurnState) (m : TurnMachine) (c : TurnCall)
    → IsSound first m
    → IsSound first (call m c)
unfolding terminate with_reason
call-IsSound first m (TurnCall.transition_to to) h = elim (transition-cases m to) [
  | inl (e, thrown) ↦ rw thrown h
  | inr (going, legal, moved) ↦
      rw moved
        (moved-IsTraced first m to m.reason h.0 legal, rw (none_of_going m.reason _ h.1 going) refl)
]
call-IsSound first m (TurnCall.terminate_with state reason) h =
    elim (transition-cases m (of_terminal state)) [
      | inl (e, thrown) ↦ rw thrown h
      | inr (going, legal, moved) ↦ rw moved (
        moved-IsTraced first m (of_terminal state) (some reason) h.0 legal,
        is_terminal_turn_state-of_terminal state,
      )
    ]

run_calls-IsSound :
    (first : TurnState) (m : TurnMachine) (cs : List TurnCall)
    → IsSound first m
    → IsSound first (run_calls m cs)
run_calls-IsSound first m [] h = h
run_calls-IsSound first m (c ∷ cs) h =
    run_calls-IsSound first (call m c) cs (call-IsSound first m c h)

-- Whatever calls follow the construction of a machine, legal or not, its history is a path along the
-- legal transitions from the state it was restored in to the state it is in, and a machine that names
-- a reason is in a terminal state.
pub run_calls-IsTraced :
    (restored : TurnState) (cs : List TurnCall)
    → IsTraced restored (run_calls (new_machine restored) cs)
      × IsReasoned (run_calls (new_machine restored) cs)
unfolding new_machine
run_calls-IsTraced restored cs =
    run_calls-IsSound restored (new_machine restored) cs (([], refl, refl), refl)

call-terminal :
    (m : TurnMachine) (c : TurnCall) → is_terminal_turn_state m.state ≡ true → call m c ≡ m
unfolding transition terminate with_reason
call-terminal m (TurnCall.transition_to to) h = rw h refl
call-terminal m (TurnCall.terminate_with state reason) h = rw h refl

-- A machine in a terminal state is left as it is by any calls: its state, its reason and its history.
run_calls-terminal :
    (m : TurnMachine) (cs : List TurnCall)
    → is_terminal_turn_state m.state ≡ true
    → run_calls m cs ≡ m
run_calls-terminal m [] h = refl
run_calls-terminal m (c ∷ cs) h =
    ap (λ n. run_calls n cs) (call-terminal m c h) ∙ run_calls-terminal m cs h

-- No legal transition leaves a terminal state, and every other state may be cancelled and may fail.
can_transition_turn-is_terminal :
    (s : TurnState)
    → (is_empty (turn_transitions s) ≡ is_terminal_turn_state s)
      × (can_transition_turn s TurnState.cancelled ≡ not (is_terminal_turn_state s))
      × (can_transition_turn s TurnState.failed ≡ not (is_terminal_turn_state s))
unfolding can_transition_turn is_terminal_turn_state turn_transitions
can_transition_turn-is_terminal TurnState.preparing = (refl, refl, refl)
can_transition_turn-is_terminal TurnState.model_streaming = (refl, refl, refl)
can_transition_turn-is_terminal TurnState.awaiting_approval = (refl, refl, refl)
can_transition_turn-is_terminal TurnState.executing = (refl, refl, refl)
can_transition_turn-is_terminal TurnState.waiting_background = (refl, refl, refl)
can_transition_turn-is_terminal TurnState.compacting = (refl, refl, refl)
can_transition_turn-is_terminal TurnState.recovering = (refl, refl, refl)
can_transition_turn-is_terminal TurnState.steering = (refl, refl, refl)
can_transition_turn-is_terminal TurnState.completed = (refl, refl, refl)
can_transition_turn-is_terminal TurnState.cancelled = (refl, refl, refl)
can_transition_turn-is_terminal TurnState.failed = (refl, refl, refl)
can_transition_turn-is_terminal TurnState.blocked = (refl, refl, refl)
can_transition_turn-is_terminal TurnState.budget_exhausted = (refl, refl, refl)
