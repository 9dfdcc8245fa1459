-- ===== src/Tasks/Dependencies/Stack.antt =====
-- packages/tasks/src/dependencies.ts: the stack of the search and the tasks that it has seen.
use qwen_harness.Prelude.{
  ℕ, ◌+◌, true, false, not, ◌||◌, List, [], ◌∷◌, ◌==◌, ==_iff, keep, length, ◌≡◌, refl, ◌⊎◌, inl,
  inr, arith, Bool-cases, any-Some,
}
use mathlib.Core.List.{Memᴰ}
use qwen_harness.Tasks.Dependencies.{DepEdge, blocks_of, has, push_all}

pub has-mem : (seen : List ℕ) (node : ℕ) → has seen node ≡ true → Memᴰ node seen
unfolding has
has-mem seen node h = let (n, m, e) = any-Some (λ n. node == n) seen h in rw ((==_iff node n).0 e) m

pub mem-push_all :
    (x : ℕ) (xs stack : List ℕ) → Memᴰ x (push_all xs stack) → Memᴰ x xs ⊎ Memᴰ x stack
mem-push_all x [] stack m = inr m
mem-push_all x (y ∷ xs) stack m = elim (mem-push_all x xs (y ∷ stack) m) [
  | inl there ↦ inl (Memᴰ.tail there)
  | inr (Memᴰ.head e) ↦ inl (Memᴰ.head e)
  | inr (Memᴰ.tail below) ↦ inr below
]

pub mem-push_all_below : (x : ℕ) (xs stack : List ℕ) → Memᴰ x stack → Memᴰ x (push_all xs stack)
mem-push_all_below x [] stack m = m
mem-push_all_below x (y ∷ xs) stack m = mem-push_all_below x xs (y ∷ stack) (Memᴰ.tail m)

pub mem-push_all_pushed : (x : ℕ) (xs stack : List ℕ) → Memᴰ x xs → Memᴰ x (push_all xs stack)
mem-push_all_pushed x [] stack m = elim m [ ]
mem-push_all_pushed x (y ∷ xs) stack (Memᴰ.head e) =
    mem-push_all_below x xs (y ∷ stack) (Memᴰ.head e)
mem-push_all_pushed x (y ∷ xs) stack (Memᴰ.tail m) = mem-push_all_pushed x xs (y ∷ stack) m

pub length-push_all : (xs stack : List ℕ) → length (push_all xs stack) ≡ length xs + length stack
length-push_all [] stack = omega arith
length-push_all (x ∷ xs) stack = omega (arith, length-push_all xs (x ∷ stack))

-- The edges whose first task the search has not seen.
abbrev pub unseen : List ℕ → List DepEdge → ℕ
unseen seen edges = length (keep (λ (e : DepEdge). not (has seen e.blocker_id)) edges)

pub has-cons : (seen : List ℕ) (node x : ℕ) → has (node ∷ seen) x ≡ (x == node) || has seen x
unfolding has
has-cons seen node x = refl

pub unseen-cons :
    (seen : List ℕ) (node : ℕ) (edges : List DepEdge)
    → has seen node ≡ false
    → unseen (node ∷ seen) edges + length (blocks_of edges node) ≡ unseen seen edges
unfolding blocks_of
unseen-cons seen node [] h = omega arith
unseen-cons seen node (e ∷ edges) h =
    let ih = unseen-cons seen node edges h in
    elim (Bool-cases (e.blocker_id == node)) [
      | inl here ↦
          let s : has seen e.blocker_id ≡ false = rw ((==_iff e.blocker_id node).0 here) h in
          rw (has-cons seen node e.blocker_id, here, s) (omega (arith, ih))
      | inr other ↦ elim (Bool-cases (has seen e.blocker_id)) [
        | inl s ↦ rw (has-cons seen node e.blocker_id, other, s) ih
        | inr s ↦ rw (has-cons seen node e.blocker_id, other, s) (omega (arith, ih))
      ]
    ]
