-- ===== src/Tasks/TaskGraph/Claims.antt =====
-- packages/tasks/src/task-graph.ts: a race of claims for one task.
use qwen_harness.Prelude.{
  ℕ, ◌+◌, ◌≤◌, Bool, true, false, not, ◌⊎◌, List, [], ◌∷◌, length, Option, none, some, Text, ◌≡◌,
  refl, ap, ◌∙◌, arith, ◌==◌, if◌then◌else◌, if_both, inl, inr,
}
use qwen_harness.Protocol.{Actor}
use qwen_harness.Tasks.StateMachine.{TaskStatus, is_claimable}
use qwen_harness.Tasks.TaskStore.{
  StoredTask, TaskEvent, TaskStore, touched, project_event, apply_event,
}
use qwen_harness.Tasks.TaskGraph.{Transaction, ClaimResult, ClaimRefusal, get_task, readback}
use qwen_harness.Tasks.TaskGraph.Operations.{emit, claim_owned, claim_on, claim}
use qwen_harness.Tasks.TaskGraph.Calls.{store_after}

abbrev is_won : Transaction ClaimResult → Bool
is_won (Transaction.committed (ClaimResult.ok t) s) = true
is_won _ = false

module _ (clock : ℕ → ℕ) (id : ℕ) where
  -- How many of the claims, made one after another, are won.
  abbrev pub winners : List (Text × Actor) → TaskStore → ℕ
  winners [] s = 0
  winners ((owner, actor) ∷ claims) s =
      let r = claim clock s id owner actor in
      (if is_won r then 1 else 0) + winners claims (store_after s r)

  -- The task is there and has an owner.
  abbrev IsHeld : TaskStore → Type 0
  IsHeld s = (t : StoredTask) × (o : Text) × (get_task s id ≡ some t) × (t.owner ≡ some o)

  claim-refused :
      (s : TaskStore) (owner : Text) (actor : Actor)
      → IsHeld s
      → (o : Text) × (claim clock s id owner actor
          ≡ Transaction.committed (ClaimResult.refused (ClaimRefusal.already_owned o)) s)
  unfolding claim claim_on claim_owned
  claim-refused s owner actor (t, o, e, f) = (
    o,
    ap (claim_on clock s id owner actor) e ∙ ap (claim_owned clock s id owner actor t.status) f,
  )

  winners-held : (claims : List (Text × Actor)) (s : TaskStore) → IsHeld s → winners claims s ≡ 0
  winners-held [] s h = refl
  winners-held ((owner, actor) ∷ claims) s h =
      let (o, e) = claim-refused s owner actor h in rw e (omega (arith, winners-held claims s h))

  get_task-emit :
      (s : TaskStore) (owner : Text) (actor : Actor) (t : StoredTask)
      → get_task s id ≡ some t
      → IsHeld (emit clock s id (TaskEvent.task_claimed owner) actor)
  unfolding emit apply_event project_event
  get_task-emit s owner actor t e =
      let same : (id == id) ≡ true = ground arith in
      (
        record (touched (clock (length s.log)) t) {
          owner = some owner;
          status = TaskStatus.claimed;
        },
        owner,
        rw (same, e) refl,
        refl,
      )

  -- What a claim leaves: the store as it was, with nothing won, or a store in which the task is held.
  abbrev IsSettled : TaskStore → Transaction ClaimResult → Type 0
  IsSettled s r = ((is_won r ≡ false) × (store_after s r ≡ s)) ⊎ IsHeld (store_after s r)

  readback-IsSettled : (s s' : TaskStore) → IsHeld s' → IsSettled s (readback ClaimResult.ok s' id)
  unfolding readback
  readback-IsSettled s s' (t, o, e, f) = rw e (inr (t, o, e, f))

  claim_owned-IsSettled :
      (s : TaskStore) (owner : Text) (actor : Actor) (t : StoredTask) (o : Option Text)
      → get_task s id ≡ some t
      → IsSettled s (claim_owned clock s id owner actor t.status o)
  unfolding claim_owned
  claim_owned-IsSettled s owner actor t (some o) e = inl (refl, refl)
  claim_owned-IsSettled s owner actor t none e =
      if_both (IsSettled s) (not (is_claimable t.status)) (inl (refl, refl)) (
        readback-IsSettled s (emit clock s id (TaskEvent.task_claimed owner) actor)
          (get_task-emit s owner actor t e))

  claim_on-IsSettled :
      (s : TaskStore) (owner : Text) (actor : Actor) (o : Option StoredTask)
      → get_task s id ≡ o
      → IsSettled s (claim_on clock s id owner actor o)
  unfolding claim_on
  claim_on-IsSettled s owner actor none e = inl (refl, refl)
  claim_on-IsSettled s owner actor (some t) e = claim_owned-IsSettled s owner actor t t.owner e

  claim-IsSettled :
      (s : TaskStore) (owner : Text) (actor : Actor) → IsSettled s (claim clock s id owner actor)
  unfolding claim
  claim-IsSettled s owner actor = claim_on-IsSettled s owner actor (get_task s id) refl

  -- Of any claims of one task that are made one after another, by anyone, at most one is won.
  pub winners-le : (claims : List (Text × Actor)) (s : TaskStore) → winners claims s ≤ 1
  winners-le [] s = omega arith
  winners-le ((owner, actor) ∷ claims) s = elim (claim-IsSettled s owner actor) [
    | inl (lost, same) ↦ rw (lost, same) (omega (arith, winners-le claims s))
    | inr held ↦
        let r = claim clock s id owner actor in
        let rest = winners-held claims (store_after s r) held in
        if_both (λ n. n + winners claims (store_after s r) ≤ 1) (is_won r) (omega (arith, rest))
          (omega (arith, rest))
  ]
