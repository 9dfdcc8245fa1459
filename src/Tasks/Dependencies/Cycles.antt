-- ===== src/Tasks/Dependencies/Cycles.antt =====
-- packages/tasks/src/dependencies.ts: `wouldCreateCycle` and the cycles of the graph.
use qwen_harness.Prelude.{
  ℕ, true, false, List, ◌∷◌, ◌≡◌, refl, sym, ◌∙◌, ◌↔◌, ◌⊎◌, inl, inr, Bool-cases, ◌==◌, ==_iff,
}
use mathlib.Core.List.{Memᴰ}
use qwen_harness.Tasks.Dependencies.{DepEdge, blocks_of, reachable, would_create_cycle}
use qwen_harness.Tasks.Dependencies.Search.{Reaches, reachable_iff}

-- No task waits on itself, through however many others.
abbrev pub IsAcyclic : List DepEdge → Type 0
IsAcyclic edges = (v : ℕ) → ¬ Reaches edges v v

Reaches-trans :
    (edges : List DepEdge) (u v w : ℕ) → Reaches edges u v → Reaches edges v w → Reaches edges u w
Reaches-trans edges u v w (Reaches.edge _ _ m) s = Reaches.step u v w m s
Reaches-trans edges u v w (Reaches.step _ x _ m r) s =
    Reaches.step u x w m (Reaches-trans edges x v w r s)

loop_of : (edges : List DepEdge) (v w : ℕ) → v ≡ w → Reaches edges v w → Reaches edges v v
loop_of edges v w q r = rw q (rw q at r)

module _ (edges : List DepEdge) (e : DepEdge) where
  pub mem-blocks_of-cons :
      (v w : ℕ)
      → Memᴰ w (blocks_of (e ∷ edges) v)
      → ((v ≡ e.blocker_id) × (w ≡ e.blocked_id)) ⊎ Memᴰ w (blocks_of edges v)
  unfolding blocks_of
  mem-blocks_of-cons v w m = elim (Bool-cases (e.blocker_id == v)) [
    | inl t ↦ first t (rw t at m)
    | inr f ↦ inr (rw f at m)
  ]
    where
      first :
          (e.blocker_id == v) ≡ true
          → Memᴰ w (e.blocked_id ∷ blocks_of edges v)
          → ((v ≡ e.blocker_id) × (w ≡ e.blocked_id)) ⊎ Memᴰ w (blocks_of edges v)
      first t (Memᴰ.head h) = inl (sym ((==_iff e.blocker_id v).0 t), h)
      first t (Memᴰ.tail m') = inr m'

  pub mem-blocks_of-more : (v w : ℕ) → Memᴰ w (blocks_of edges v) → Memᴰ w (blocks_of (e ∷ edges) v)
  unfolding blocks_of
  mem-blocks_of-more v w m = elim (Bool-cases (e.blocker_id == v)) [
    | inl t ↦ rw t (Memᴰ.tail m)
    | inr f ↦ rw f m
  ]

  pub mem-blocks_of-first : Memᴰ e.blocked_id (blocks_of (e ∷ edges) e.blocker_id)
  unfolding blocks_of
  mem-blocks_of-first = rw ((==_iff e.blocker_id e.blocker_id).1 refl) (Memᴰ.head refl)

  Reaches-more : (v w : ℕ) → Reaches edges v w → Reaches (e ∷ edges) v w
  Reaches-more v w (Reaches.edge _ _ m) = Reaches.edge v w (mem-blocks_of-more v w m)
  Reaches-more v w (Reaches.step _ x _ m r) =
      Reaches.step v x w (mem-blocks_of-more v x m) (Reaches-more x w r)

  -- The same task, or one that a chain leads to.
  abbrev pub AtOrReaches : ℕ → ℕ → Type 0
  AtOrReaches v w = (v ≡ w) ⊎ Reaches edges v w

  -- A chain over the new edge too avoids it, or leads to it and on from it.
  pub Reaches-split :
      (v w : ℕ)
      → Reaches (e ∷ edges) v w
      → Reaches edges v w ⊎ (AtOrReaches v e.blocker_id × AtOrReaches e.blocked_id w)
  Reaches-split v w (Reaches.edge _ _ m) = elim (mem-blocks_of-cons v w m) [
    | inl (a, b) ↦ inr (inl a, inl (sym b))
    | inr old ↦ inl (Reaches.edge v w old)
  ]
  Reaches-split v w (Reaches.step _ x _ m r) = elim (mem-blocks_of-cons v x m) [
    | inl (a, b) ↦ elim (Reaches-split x w r) [
      | inl rest ↦ inr (inl a, inr (rw (← b) rest))
      | inr (before, after) ↦ inr (inl a, after)
    ]
    | inr old ↦ elim (Reaches-split x w r) [
      | inl rest ↦ inl (Reaches.step v x w old rest)
      | inr (inl at, after) ↦ inr (inr (rw (← at) (Reaches.edge v x old)), after)
      | inr (inr before, after) ↦ inr (inr (Reaches.step v x e.blocker_id old before), after)
    ]
  ]

  -- Around: from the end of the new edge to its start.
  pub around :
      (v : ℕ)
      → AtOrReaches v e.blocker_id
      → AtOrReaches e.blocked_id v
      → AtOrReaches e.blocked_id e.blocker_id
  around v (inl a) (inl b) = inl (b ∙ a)
  around v (inl a) (inr r) = inr (rw (← a) r)
  around v (inr r) (inl b) = inr (rw b r)
  around v (inr r) (inr s) = inr (Reaches-trans edges e.blocked_id v e.blocker_id s r)

-- On an acyclic graph, wouldCreateCycle answers false for a new edge exactly if the graph with this
-- edge is acyclic again.
pub would_create_cycle_iff :
    (edges : List DepEdge) (e : DepEdge)
    → IsAcyclic edges
    → (would_create_cycle edges e.blocker_id e.blocked_id ≡ false) ↔ IsAcyclic (e ∷ edges)
unfolding would_create_cycle
would_create_cycle_iff edges e acyclic = elim (Bool-cases (e.blocker_id == e.blocked_id)) [
  | inl same ↦ (
    λ h. let c : true ≡ false = rw same at h in cc,
    λ h. elim (h e.blocker_id (self_loop same)) [ ],
  )
  | inr differ ↦ elim (Bool-cases (reachable edges e.blocked_id e.blocker_id)) [
    | inl t ↦ (
      λ h. let c : true ≡ false = rw (differ, t) at h in cc,
      λ h. elim (h e.blocker_id (closed ((reachable_iff edges e.blocked_id e.blocker_id).0 t))) [ ],
    )
    | inr f ↦ (λ h v r. unclosed differ f v (Reaches-split edges e v v r), λ h. rw (differ, f) refl)
  ]
]
  where
    self_loop :
        (e.blocker_id == e.blocked_id) ≡ true → Reaches (e ∷ edges) e.blocker_id e.blocker_id
    self_loop same =
        loop_of (e ∷ edges) e.blocker_id e.blocked_id ((==_iff e.blocker_id e.blocked_id).0 same)
          (Reaches.edge e.blocker_id e.blocked_id (mem-blocks_of-first edges e))

    closed : Reaches edges e.blocked_id e.blocker_id → Reaches (e ∷ edges) e.blocker_id e.blocker_id
    closed r =
        Reaches.step e.blocker_id e.blocked_id e.blocker_id (mem-blocks_of-first edges e)
          (Reaches-more edges e e.blocked_id e.blocker_id r)

    unclosed :
        (e.blocker_id == e.blocked_id) ≡ false
        → reachable edges e.blocked_id e.blocker_id ≡ false
        → (v : ℕ)
        → Reaches edges v v
          ⊎ (AtOrReaches edges e v e.blocker_id × AtOrReaches edges e e.blocked_id v)
        → ⊥
    unclosed differ f v (inl r) = acyclic v r
    unclosed differ f v (inr (before, after)) = elim (around edges e v before after) [
      | inl at ↦
          let t = (==_iff e.blocker_id e.blocked_id).1 (sym at) in
          let c : true ≡ false = sym t ∙ differ in cc
      | inr r ↦
          let t = (reachable_iff edges e.blocked_id e.blocker_id).1 r in
          let c : true ≡ false = sym t ∙ f in cc
    ]
