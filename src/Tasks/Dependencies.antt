-- ===== src/Tasks/Dependencies.antt =====
-- packages/tasks/src/dependencies.ts: reachability over the edges of the task graph. The stack of the
-- search is a list with its top first; the adjacency that the source builds once is read off the
-- edges, in the same order.
pub mod Stack
pub mod Search
pub mod Cycles
pub mod Edges
use qwen_harness.Prelude.{
  ℕ, zero, suc, Bool, true, false, not, ◌&&◌, ◌||◌, List, [], ◌∷◌, map, Option, none, some, ◌==◌,
  if◌then◌else◌, any, all, keep, length,
}

pub record DepEdge : Type 0 where
  pub blocker_id : ℕ
  pub blocked_id : ℕ

unfoldable pub blockers_of : List DepEdge → ℕ → List ℕ
blockers_of edges id =
    map (λ (e : DepEdge). e.blocker_id) (keep (λ (e : DepEdge). e.blocked_id == id) edges)

unfoldable pub blocks_of : List DepEdge → ℕ → List ℕ
blocks_of edges id =
    map (λ (e : DepEdge). e.blocked_id) (keep (λ (e : DepEdge). e.blocker_id == id) edges)

-- `seen.has(node)`
unfoldable pub has : List ℕ → ℕ → Bool
has seen node = any (λ n. node == n) seen

-- A `push` of each element in turn.
abbrev pub push_all : List ℕ → List ℕ → List ℕ
push_all [] stack = stack
push_all (x ∷ xs) stack = push_all xs (x ∷ stack)

module _ (edges : List DepEdge) (target : ℕ) where
  -- What a round leaves of `seen` and of the stack below the popped node.
  unfoldable pub after_pop : List ℕ → ℕ → List ℕ → List ℕ × List ℕ
  after_pop seen node stack =
      if has seen node then (seen, stack) else (node ∷ seen, push_all (blocks_of edges node) stack)

  -- A round that meets the target returns true.
  unfoldable pub finds : List ℕ → ℕ → Bool
  finds seen node = not (has seen node) && any (λ next. next == target) (blocks_of edges node)

  -- The loop, on fuel: `none` is out of fuel.
  unfoldable pub search : ℕ → List ℕ → List ℕ → Option Bool
  unfolding after_pop finds
  search zero seen stack = none
  search (suc fuel) seen [] = some false
  search (suc fuel) seen (node ∷ stack) =
      let (seen', stack') = after_pop seen node stack in
      let rest = search fuel seen' stack' in if finds seen node then some true else rest

abbrev pub is_found : Option Bool → Bool
is_found (some true) = true
is_found _ = false

-- One round for the start and one for every edge, and one that finds the stack empty.
abbrev pub enough : List DepEdge → ℕ
enough edges = suc (suc (length edges))

unfoldable pub reachable : List DepEdge → ℕ → ℕ → Bool
unfolding search
reachable edges start target = is_found (search edges target (enough edges) [] (start ∷ []))

unfoldable pub would_create_cycle : List DepEdge → ℕ → ℕ → Bool
unfolding reachable
would_create_cycle edges blocker_id blocked_id =
    if blocker_id == blocked_id then true else reachable edges blocked_id blocker_id

unfoldable pub all_blockers_completed : List DepEdge → ℕ → (ℕ → Bool) → Bool
unfolding blockers_of
all_blockers_completed edges id is_completed = all is_completed (blockers_of edges id)
