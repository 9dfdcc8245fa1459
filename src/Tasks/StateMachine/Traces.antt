-- ===== src/Tasks/StateMachine/Traces.antt =====
-- packages/tasks/src/state-machine.ts: sequences of legal transitions.
use qwen_harness.Prelude.{
  Bool, true, false, not, ◌&&◌, ◌||◌, List, [], ◌∷◌, ◌≡◌, refl, arith, ◌==◌, ◌⊎◌, inl, inr,
  and-true, sym, Bool-cases, ap, ◌∙◌, ◌↔◌,
}
use qwen_harness.Tasks.StateMachine.{
  TaskStatus, pending, blocked, claimed, in_progress, completed, released, deleted, lists, place_of,
  can_transition, task_transitions, is_owned, is_terminal,
}

abbrev pub is_trace : TaskStatus → List TaskStatus → Bool
is_trace s [] = true
is_trace s (t ∷ ts) = can_transition s t && is_trace t ts

abbrev pub final : TaskStatus → List TaskStatus → TaskStatus
final s [] = s
final s (t ∷ ts) = final t ts

-- Neither owned nor completed.
abbrev pub is_open : TaskStatus → Bool
is_open s = not (is_owned s || lists (completed ∷ []) s)

-- An open status leads to claimed or to another open one.
from_open :
    (s t : TaskStatus)
    → is_open s ≡ true
    → can_transition s t ≡ true
    → (place_of t ≡ place_of claimed) ⊎ (is_open t ≡ true)
unfolding can_transition task_transitions
from_open s claimed o h = inl refl
from_open s pending o h = inr refl
from_open s blocked o h = inr refl
from_open s released o h = inr refl
from_open s deleted o h = inr refl
from_open pending completed o h = cc
from_open blocked completed o h = cc
from_open claimed completed o h = cc
from_open in_progress completed o h = cc
from_open completed completed o h = cc
from_open released completed o h = cc
from_open deleted completed o h = cc
from_open pending in_progress o h = cc
from_open blocked in_progress o h = cc
from_open claimed in_progress o h = cc
from_open in_progress in_progress o h = cc
from_open completed in_progress o h = cc
from_open released in_progress o h = cc
from_open deleted in_progress o h = cc

listed :
    (x : TaskStatus) (xs : List TaskStatus) (y : TaskStatus)
    → place_of x ≡ place_of y
    → lists (y ∷ xs) x ≡ true
listed x xs y e = ground arith

listed_later :
    (x : TaskStatus) (xs : List TaskStatus) (y : TaskStatus)
    → lists xs x ≡ true
    → lists (y ∷ xs) x ≡ true
listed_later x xs y h = elim (Bool-cases (place_of x == place_of y)) [
  | inl t ↦ rw t refl
  | inr f ↦ rw f h
]

-- A task that is completed at the end of a sequence of legal transitions, and was neither owned nor
-- completed at its start, was claimed on the way.
final-claimed :
    (s : TaskStatus) (ts : List TaskStatus)
    → is_trace s ts ≡ true
    → is_open s ≡ true
    → final s ts ≡ completed
    → lists ts claimed ≡ true
final-claimed s [] l o f = let e : is_open completed ≡ true = rw f at o in cc
final-claimed s (t ∷ ts) l o f =
    let (legal, rest) = and-true (can_transition s t) (is_trace t ts) l in
    elim (from_open s t o legal) [
      | inl c ↦ listed claimed ts t (sym c)
      | inr still ↦ listed_later claimed ts t (final-claimed t ts rest still f)
    ]

abbrev pub IsCompletable : TaskStatus → Type 0
IsCompletable s = (ts : List TaskStatus) × (is_trace s ts ≡ true) × (final s ts ≡ completed)

completable : (s : TaskStatus) → is_terminal s ≡ false → IsCompletable s
unfolding can_transition task_transitions
completable pending h = (claimed ∷ in_progress ∷ completed ∷ [], refl, refl)
completable blocked h = (pending ∷ claimed ∷ in_progress ∷ completed ∷ [], refl, refl)
completable claimed h = (in_progress ∷ completed ∷ [], refl, refl)
completable in_progress h = (completed ∷ [], refl, refl)
completable released h = (claimed ∷ in_progress ∷ completed ∷ [], refl, refl)
completable completed h = ([], refl, refl)
completable deleted h = ground arith

stays_deleted : (ts : List TaskStatus) → is_trace deleted ts ≡ true → final deleted ts ≡ deleted
unfolding can_transition task_transitions
stays_deleted [] l = refl
stays_deleted (t ∷ ts) l = cc

not_terminal : (s : TaskStatus) → IsCompletable s → is_terminal s ≡ false
not_terminal deleted (ts, l, f) =
    let e : is_terminal completed ≡ is_terminal deleted =
      ap is_terminal (sym f ∙ stays_deleted ts l) in
    sym e
not_terminal pending c = refl
not_terminal blocked c = refl
not_terminal claimed c = refl
not_terminal in_progress c = refl
not_terminal completed c = refl
not_terminal released c = refl

-- Some sequence of legal transitions completes a task exactly if its status is not terminal.
IsCompletable-iff : (s : TaskStatus) → IsCompletable s ↔ (is_terminal s ≡ false)
IsCompletable-iff s = (not_terminal s, completable s)
