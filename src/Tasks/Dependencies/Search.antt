-- ===== src/Tasks/Dependencies/Search.antt =====
-- packages/tasks/src/dependencies.ts: `reachable` against chains of edges, and the fuel of its loop.
use qwen_harness.Prelude.{
  ℕ, zero, suc, ◌+◌, ◌≤◌, ◌<◌, Bool, true, false, not, List, [], ◌∷◌, Option, none, some, ◌==◌,
  ==_iff, any, keep, length, ◌≡◌, refl, sym, ◌∙◌, ◌⊎◌, inl, inr, arith, Bool-cases, any-Some,
  any_of_mem, ◌↔◌, ◌≢◌,
}
use mathlib.Core.List.{Memᴰ}
use qwen_harness.Tasks.Dependencies.{
  DepEdge, blocks_of, has, push_all, after_pop, finds, search, enough, reachable,
}
use qwen_harness.Tasks.Dependencies.Stack.{
  has-mem, mem-push_all, mem-push_all_below, mem-push_all_pushed, length-push_all, unseen,
  unseen-cons,
}

-- At least one edge leads from the first task to the second.
pub data Reaches (edges : List DepEdge) : ℕ → ℕ → Type 0 where
  edge : (v w : ℕ) → Memᴰ w (blocks_of edges v) → Reaches edges v w
  step : (v w u : ℕ) → Memᴰ w (blocks_of edges v) → Reaches edges w u → Reaches edges v u

module _ (edges : List DepEdge) (target : ℕ) where
  -- A successor of the node that is the target.
  abbrev hits : ℕ → Bool
  hits node = any (λ next. next == target) (blocks_of edges node)

  search-runs :
      (fuel : ℕ) (seen stack : List ℕ)
      → length stack + unseen seen edges < fuel
      → search edges target fuel seen stack ≢ none
  unfolding search after_pop finds
  search-runs zero seen stack h = omega (arith, h)
  search-runs (suc fuel) seen [] h = λ e. cc
  search-runs (suc fuel) seen (node ∷ stack) h = elim (Bool-cases (has seen node)) [
    | inl s ↦ rw s (search-runs fuel seen stack (omega (arith, h)))
    | inr s ↦ elim (Bool-cases (hits node)) [
      | inl t ↦ rw (s, t) (λ e. cc)
      | inr t ↦
          rw (s, t)
            (search-runs fuel (node ∷ seen) (push_all (blocks_of edges node) stack) (
              omega (
                arith,
                h,
                unseen-cons seen node edges s,
                length-push_all (blocks_of edges node) stack,
              )))
    ]
  ]

  -- A true answer is a chain of edges from the stack to the target.
  search-Reaches :
      (fuel : ℕ) (seen stack : List ℕ)
      → search edges target fuel seen stack ≡ some true
      → (start : ℕ) × Memᴰ start stack × Reaches edges start target
  unfolding search after_pop finds
  search-Reaches zero seen stack h = ground arith
  search-Reaches (suc fuel) seen [] h = ground arith
  search-Reaches (suc fuel) seen (node ∷ stack) h = elim (Bool-cases (has seen node)) [
    | inl s ↦
        let (start, m, r) = search-Reaches fuel seen stack (rw s at h) in (start, Memᴰ.tail m, r)
    | inr s ↦ elim (Bool-cases (hits node)) [
      | inl t ↦
          let (next, m, e) = any-Some (λ next. next == target) (blocks_of edges node) t in
          let m' : Memᴰ target (blocks_of edges node) = rw (← (==_iff next target).0 e) m in
          (node, Memᴰ.head refl, Reaches.edge node target m')
      | inr t ↦
          let below = push_all (blocks_of edges node) stack in
          let (start, m, r) = search-Reaches fuel (node ∷ seen) below (rw (s, t) at h) in
          elim (mem-push_all start (blocks_of edges node) stack m) [
            | inl pushed ↦ (node, Memᴰ.head refl, Reaches.step node start target pushed r)
            | inr old ↦ (start, Memᴰ.tail old, r)
          ]
    ]
  ]

  -- A set of tasks that no edge leaves, and that no edge leads from to the target.
  abbrev IsSealed : List ℕ → Type 0
  IsSealed set = (v w : ℕ) → Memᴰ v set → Memᴰ w (blocks_of edges v) → (w ≢ target) × Memᴰ w set

  -- What is true of `seen` and the stack between two rounds.
  abbrev IsExplored : List ℕ → List ℕ → Type 0
  IsExplored seen stack =
      (v w : ℕ)
      → Memᴰ v seen
      → Memᴰ w (blocks_of edges v)
      → (w ≢ target) × (Memᴰ w seen ⊎ Memᴰ w stack)

  skip-IsExplored :
      (seen : List ℕ) (node : ℕ) (stack : List ℕ)
      → has seen node ≡ true
      → IsExplored seen (node ∷ stack)
      → IsExplored seen stack
  skip-IsExplored seen node stack s x v w m n =
      let (apart, place) = x v w m n in
      (
        apart,
        elim place [
          | inl i ↦ inl i
          | inr (Memᴰ.head e) ↦ inl (rw e (has-mem seen node s))
          | inr (Memᴰ.tail i) ↦ inr i
        ],
      )

  visit-IsExplored :
      (seen : List ℕ) (node : ℕ) (stack : List ℕ)
      → hits node ≡ false
      → IsExplored seen (node ∷ stack)
      → IsExplored (node ∷ seen) (push_all (blocks_of edges node) stack)
  visit-IsExplored seen node stack t x v w (Memᴰ.head e) n =
      let n' : Memᴰ w (blocks_of edges node) = rw (← e) n in
      (
        λ same.
            let hit =
              any_of_mem (λ next. next == target) w (blocks_of edges node) n'
                ((==_iff w target).1 same) in
            let e' : true ≡ false = sym hit ∙ t in cc,
        inr (mem-push_all_pushed w (blocks_of edges node) stack n'),
      )
  visit-IsExplored seen node stack t x v w (Memᴰ.tail m) n =
      let (apart, place) = x v w m n in
      (
        apart,
        elim place [
          | inl i ↦ inl (Memᴰ.tail i)
          | inr (Memᴰ.head e) ↦ inl (Memᴰ.head e)
          | inr (Memᴰ.tail i) ↦ inr (mem-push_all_below w (blocks_of edges node) stack i)
        ],
      )

  -- What holds a list and one of its set holds the list with that element before it.
  in_set :
      {seen stack : List ℕ} {node : ℕ} (set : List ℕ)
      → ((v : ℕ) → Memᴰ v seen → Memᴰ v set)
      → Memᴰ node seen
      → ((v : ℕ) → Memᴰ v stack → Memᴰ v set)
      → (v : ℕ) → Memᴰ v (node ∷ stack)
      → Memᴰ v set
  in_set {node = node} set old m rest v (Memᴰ.head e) = rw e (old node m)
  in_set set old m rest v (Memᴰ.tail i) = rest v i

  search-IsSealed :
      (fuel : ℕ) (seen stack : List ℕ)
      → IsExplored seen stack
      → search edges target fuel seen stack ≡ some false
      → (set : List ℕ) × IsSealed set
        × ((v : ℕ) → Memᴰ v seen → Memᴰ v set)
        × ((v : ℕ) → Memᴰ v stack → Memᴰ v set)
  unfolding search after_pop finds
  search-IsSealed zero seen stack x h = ground arith
  search-IsSealed (suc fuel) seen [] x h = (
    seen,
    λ v w m n.
        let (apart, where') = x v w m n in
        elim where' [ inl i ↦ (apart, i) | inr none' ↦ elim none' [ ] ],
    λ v m. m,
    λ v m. elim m [ ],
  )
  search-IsSealed (suc fuel) seen (node ∷ stack) x h = elim (Bool-cases (has seen node)) [
    | inl s ↦
        let (set, closed, old, rest) =
          search-IsSealed fuel seen stack (skip-IsExplored seen node stack s x) (rw s at h) in
        (set, closed, old, in_set set old (has-mem seen node s) rest)
    | inr s ↦ elim (Bool-cases (hits node)) [
      | inl t ↦ let e : some true ≡ some false = rw (s, t) at h in ground arith
      | inr t ↦
          let below = push_all (blocks_of edges node) stack in
          let (set, closed, old, rest) =
            search-IsSealed fuel (node ∷ seen) below (visit-IsExplored seen node stack t x)
              (rw (s, t) at h) in
          (
            set,
            closed,
            λ v m. old v (Memᴰ.tail m),
            in_set set old (Memᴰ.head refl)
                (λ v m. rest v (mem-push_all_below v (blocks_of edges node) stack m)),
          )
    ]
  ]

-- No chain of edges leaves a sealed set for the target.
sealed_unreached :
    (edges : List DepEdge) (target : ℕ) (set : List ℕ) (v : ℕ)
    → IsSealed edges target set
    → Memᴰ v set
    → ¬ Reaches edges v target
sealed_unreached edges target set v closed m (Reaches.edge _ _ n) = (closed v target m n).0 refl
sealed_unreached edges target set v closed m (Reaches.step _ w _ n r) =
    sealed_unreached edges target set w closed (closed v w m n).1 r

length-keep {ℓ} : {A : Type ℓ} (p : A → Bool) (xs : List A) → length (keep p xs) ≤ length xs
length-keep p [] = omega arith
length-keep p (x ∷ xs) = elim (Bool-cases (p x)) [
  | inl t ↦ rw t (omega (arith, length-keep p xs))
  | inr f ↦ rw f (omega (arith, length-keep p xs))
]

answer-cases : (o : Option Bool) → o ≢ none → (o ≡ some true) ⊎ (o ≡ some false)
answer-cases none h = elim (h refl) [ ]
answer-cases (some true) h = inl refl
answer-cases (some false) h = inr refl

-- The loop of `reachable` never runs out of fuel.
search-enough :
    (edges : List DepEdge) (start target : ℕ)
    → search edges target (enough edges) [] (start ∷ []) ≢ none
search-enough edges start target =
    search-runs edges target (enough edges) [] (start ∷ [])
      (omega (arith, length-keep (λ (e : DepEdge). not (has [] e.blocker_id)) edges))

-- The loop of `reachable`, from the start with nothing seen, ends with a verdict: true if a chain of one or
-- more edges leads from the start to the target, and false if none does.
pub search_decides :
    (edges : List DepEdge) (start target : ℕ)
    → let verdict = search edges target (enough edges) [] (start ∷ []) in
      ((verdict ≡ some true) × (reachable edges start target ≡ true) × Reaches edges start target)
      ⊎ ((verdict ≡ some false)
          × (reachable edges start target ≡ false)
          × (¬ Reaches edges start target))
unfolding reachable
search_decides edges start target =
    let fuel = enough edges in
    elim (answer-cases (search edges target fuel [] (start ∷ []))
      (search-enough edges start target)) [
        | inl hit ↦
            inl
              (hit, rw hit refl, from_start (search-Reaches edges target fuel [] (start ∷ []) hit))
        | inr miss ↦
            let (set, closed, old, rest) =
              search-IsSealed edges target fuel [] (start ∷ []) (λ v w m. elim m [ ]) miss in
            inr (
              miss,
              rw miss refl,
              λ r.
                  elim (sealed_unreached edges target set start closed (rest start (Memᴰ.head refl))
                    r) [ ],
            )
      ]
  where
    from_start : (s : ℕ) × Memᴰ s (start ∷ []) × Reaches edges s target → Reaches edges start target
    from_start (s, Memᴰ.head e, r) = rw (← e) r
    from_start (s, Memᴰ.tail m, r) = elim m [ ]

pub reachable_iff :
    (edges : List DepEdge) (start target : ℕ)
    → (reachable edges start target ≡ true) ↔ Reaches edges start target
reachable_iff edges start target = elim (search_decides edges start target) [
  | inl (verdict, e, r) ↦ (λ h. r, λ r. e)
  | inr (verdict, e, unreached) ↦ (λ h. absurd (ground (arith, e, h)), λ r. absurd (unreached r))
]
