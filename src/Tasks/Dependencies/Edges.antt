-- ===== src/Tasks/Dependencies/Edges.antt =====
-- packages/tasks/src/dependencies.ts: cycles of a list of edges by the edges that it holds.
use qwen_harness.Prelude.{ℕ, List, [], ◌∷◌, ◌≡◌, refl, inl, inr}
use mathlib.Core.List.{Memᴰ}
use qwen_harness.Tasks.Dependencies.{DepEdge, blocks_of}
use qwen_harness.Tasks.Dependencies.Search.{Reaches}
use qwen_harness.Tasks.Dependencies.Cycles.{
  IsAcyclic, AtOrReaches, Reaches-split, around, mem-blocks_of-cons, mem-blocks_of-more,
  mem-blocks_of-first,
}

edge_of_mem :
    (es : List DepEdge) (v w : ℕ)
    → Memᴰ w (blocks_of es v)
    → Memᴰ (record { blocker_id = v; blocked_id = w }) es
unfolding blocks_of
edge_of_mem [] v w m = elim m [ ]
edge_of_mem (e ∷ es) v w m = elim (mem-blocks_of-cons es e v w m) [
  | inl (a, b) ↦ Memᴰ.head (rw (a, b) refl)
  | inr old ↦ Memᴰ.tail (edge_of_mem es v w old)
]

mem_of_edge :
    (es : List DepEdge) (e : DepEdge) → Memᴰ e es → Memᴰ e.blocked_id (blocks_of es e.blocker_id)
mem_of_edge [] e m = elim m [ ]
mem_of_edge (x ∷ es) e (Memᴰ.head h) = rw h (mem-blocks_of-first es x)
mem_of_edge (x ∷ es) e (Memᴰ.tail m) =
    mem-blocks_of-more es x e.blocker_id e.blocked_id (mem_of_edge es e m)

abbrev pub Holds : List DepEdge → List DepEdge → Type 0
Holds ys xs = (e : DepEdge) → Memᴰ e xs → Memᴰ e ys

Reaches-mono : (xs ys : List DepEdge) (v w : ℕ) → Holds ys xs → Reaches xs v w → Reaches ys v w
Reaches-mono xs ys v w h (Reaches.edge _ _ m) =
    Reaches.edge v w (mem_of_edge ys _ (h _ (edge_of_mem xs v w m)))
Reaches-mono xs ys v w h (Reaches.step _ x _ m r) =
    Reaches.step v x w (mem_of_edge ys _ (h _ (edge_of_mem xs v x m))) (Reaches-mono xs ys x w h r)

-- Fewer edges have no more cycles.
pub IsAcyclic-mono : (xs ys : List DepEdge) → Holds ys xs → IsAcyclic ys → IsAcyclic xs
IsAcyclic-mono xs ys h a v r = a v (Reaches-mono xs ys v v h r)

-- A task that blocks none reaches none.
pub not-Reaches :
    (es : List DepEdge) (v w : ℕ)
    → ((e : DepEdge) → Memᴰ e es → ¬ (e.blocker_id ≡ v))
    → ¬ Reaches es v w
not-Reaches es v w h (Reaches.edge _ _ m) = h _ (edge_of_mem es v w m) refl
not-Reaches es v w h (Reaches.step _ x _ m r) = h _ (edge_of_mem es v x m) refl

-- An edge whose end leads nowhere near its start closes no cycle.
pub IsAcyclic-cons :
    (es : List DepEdge) (e : DepEdge)
    → IsAcyclic es
    → ¬ AtOrReaches es e e.blocked_id e.blocker_id
    → IsAcyclic (e ∷ es)
IsAcyclic-cons es e a n v r = elim (Reaches-split es e v v r) [
  | inl old ↦ a v old
  | inr (before, after) ↦ n (around es e v before after)
]
