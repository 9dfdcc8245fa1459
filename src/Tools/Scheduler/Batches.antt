-- ===== src/Tools/Scheduler/Batches.antt =====
-- packages/tools-core/src/scheduler.ts: the batches of `planBatches`, one by one and all together.
use qwen_harness.Prelude.{
  ℕ, ◌≤◌, ◌<◌, max, Bool, true, false, not, ◌&&◌, List, [], ◌∷◌, ◌++◌, ◌≡◌, refl, ap, ◌∙◌, sym, ◌⊎◌,
  inl, inr, arith, any, all, length, Bool-cases, and-true, All, length-append,
}
use qwen_harness.Tools.Scheduler.{
  PlannedCall, Batch, BatchKind, conflicts, is_safe_parallel, flushed_kind, flush, starts_batch,
  plan_step, plan_from, plan_batches,
}

abbrev pub all_calls : List Batch → List PlannedCall
all_calls [] = []
all_calls (b ∷ bs) = b.calls ++ all_calls bs

-- No call of the list conflicts with a later one.
abbrev pub compatible : List PlannedCall → Bool
compatible [] = true
compatible (c ∷ cs) = all (λ d. not (conflicts c d)) cs && compatible cs

-- What may stand in a parallel batch.
abbrev pub IsShareable : ℕ → List PlannedCall → Type 0
IsShareable max_parallel calls =
    (all is_safe_parallel calls ≡ true)
    × (compatible calls ≡ true)
    × length calls ≤ max 1 max_parallel

abbrev pub IsLone : List PlannedCall → Type 0
IsLone calls = (c : PlannedCall) × (calls ≡ c ∷ []) × (is_safe_parallel c ≡ false)

abbrev pub IsSoundBatch : ℕ → Batch → Type 0
IsSoundBatch max_parallel b =
    ((b.kind ≡ BatchKind.serial) × IsLone b.calls)
    ⊎ ((b.kind ≡ BatchKind.parallel) × 1 ≤ length b.calls × IsShareable max_parallel b.calls)

append_assoc {ℓ} : {A : Type ℓ} (xs ys zs : List A) → (xs ++ ys) ++ zs ≡ xs ++ (ys ++ zs)
append_assoc [] ys zs = refl
append_assoc (x ∷ xs) ys zs = ap (λ l. x ∷ l) (append_assoc xs ys zs)

append_nil {ℓ} : {A : Type ℓ} (xs : List A) → xs ++ [] ≡ xs
append_nil [] = refl
append_nil (x ∷ xs) = ap (λ l. x ∷ l) (append_nil xs)

all_calls-append : (xs ys : List Batch) → all_calls (xs ++ ys) ≡ all_calls xs ++ all_calls ys
all_calls-append [] ys = refl
all_calls-append (b ∷ bs) ys =
    ap (λ l. b.calls ++ l) (all_calls-append bs ys) ∙ sym (append_assoc b.calls _ _)

all_calls-flush : (calls : List PlannedCall) → all_calls (flush calls) ≡ calls
unfolding flush
all_calls-flush [] = refl
all_calls-flush (c ∷ cs) = append_nil (c ∷ cs)

All-append {ℓ κ} :
    {A : Type ℓ} (P : A → Type κ) (xs ys : List A) → All P xs → All P ys → All P (xs ++ ys)
All-append P [] ys p q = q
All-append P (x ∷ xs) ys (h, p) q = (h, All-append P xs ys p q)

all-append_last {ℓ} :
    {A : Type ℓ} (p : A → Bool) (xs : List A) (y : A)
    → all p xs ≡ true
    → p y ≡ true
    → all p (xs ++ y ∷ []) ≡ true
all-append_last p [] y h k = ground arith
all-append_last p (x ∷ xs) y h k = ground (arith, all-append_last p xs y)

compatible-append_last :
    (xs : List PlannedCall) (c : PlannedCall)
    → compatible xs ≡ true
    → any (λ e. conflicts e c) xs ≡ false
    → compatible (xs ++ c ∷ []) ≡ true
compatible-append_last [] c h k = refl
compatible-append_last (x ∷ xs) c h k =
    let (p, q) = and-true (all (λ d. not (conflicts x d)) xs) (compatible xs) h in
    let n : conflicts x c ≡ false = ground arith in
    let k' : any (λ e. conflicts e c) xs ≡ false = ground arith in
    let l : not (conflicts x c) ≡ true = ground arith in
    rw (all-append_last (λ d. not (conflicts x d)) xs c p l) (compatible-append_last xs c q k')

module _ (max_parallel : ℕ) where
  plan_step-calls :
      (current : List PlannedCall) (call : PlannedCall)
      → all_calls (plan_step max_parallel current call).0 ++ (plan_step max_parallel current call).1
        ≡ current ++ call ∷ []
  unfolding plan_step
  plan_step-calls current call = elim (Bool-cases (is_safe_parallel call)) [
    | inr unsafe ↦ rw unsafe (
        append_nil _
        ∙ all_calls-append (flush current) _
        ∙ ap (λ l. l ++ call ∷ []) (all_calls-flush current))
    | inl safe ↦ elim (Bool-cases (starts_batch max_parallel current call)) [
      | inl new ↦ rw (safe, new) (ap (λ l. l ++ call ∷ []) (all_calls-flush current))
      | inr joins ↦ rw (safe, joins) refl
    ]
  ]

  plan_from-calls :
      (current calls : List PlannedCall)
      → all_calls (plan_from max_parallel current calls) ≡ current ++ calls
  unfolding plan_from
  plan_from-calls current [] = all_calls-flush current ∙ sym (append_nil current)
  plan_from-calls current (call ∷ calls) =
      let s = plan_step max_parallel current call in
      all_calls-append s.0 _
      ∙ ap (λ l. all_calls s.0 ++ l) (plan_from-calls s.1 calls)
      ∙ sym (append_assoc (all_calls s.0) s.1 calls)
      ∙ ap (λ l. l ++ calls) (plan_step-calls current call)
      ∙ append_assoc current (call ∷ []) calls

  flush-IsSoundBatch :
      (current : List PlannedCall)
      → IsShareable max_parallel current
      → All (IsSoundBatch max_parallel) (flush current)
  unfolding flush flushed_kind
  flush-IsSoundBatch [] s = _
  flush-IsSoundBatch (c ∷ []) s =
      let e : is_safe_parallel c ≡ true = ground arith in (inr (rw e refl, omega arith, s), _)
  flush-IsSoundBatch (c ∷ d ∷ cs) s = (inr (refl, omega arith, s), _)

  one-IsShareable :
      (call : PlannedCall) → is_safe_parallel call ≡ true → IsShareable max_parallel (call ∷ [])
  one-IsShareable call safe = (rw safe refl, refl, omega arith)

  plan_step-IsSoundBatch :
      (current : List PlannedCall) (call : PlannedCall)
      → IsShareable max_parallel current
      → All (IsSoundBatch max_parallel) (plan_step max_parallel current call).0
        × IsShareable max_parallel (plan_step max_parallel current call).1
  unfolding plan_step starts_batch
  plan_step-IsSoundBatch current call s = elim (Bool-cases (is_safe_parallel call)) [
    | inr unsafe ↦ rw unsafe (
      All-append _ (flush current) _ (flush-IsSoundBatch current s)
          (inl (refl, (call, refl, unsafe)), _),
      (refl, refl, omega arith),
    )
    | inl safe ↦ elim (Bool-cases (starts_batch max_parallel current call)) [
      | inl new ↦ rw (safe, new) (flush-IsSoundBatch current s, one-IsShareable call safe)
      | inr joins ↦ rw (safe, joins) (_, joined safe joins)
    ]
  ]
    where
      joined :
          is_safe_parallel call ≡ true
          → starts_batch max_parallel current call ≡ false
          → IsShareable max_parallel (current ++ call ∷ [])
      joined safe joins =
          let fits : length current < max_parallel = ground arith in
          let alone : any (λ e. conflicts e call) current ≡ false = ground arith in
          (
            all-append_last is_safe_parallel current call s.0 safe,
            compatible-append_last current call s.1 alone,
            omega (arith, length-append current (call ∷ [])),
          )

  plan_from-IsSoundBatch :
      (current calls : List PlannedCall)
      → IsShareable max_parallel current
      → All (IsSoundBatch max_parallel) (plan_from max_parallel current calls)
  unfolding plan_from
  plan_from-IsSoundBatch current [] s = flush-IsSoundBatch current s
  plan_from-IsSoundBatch current (call ∷ calls) s =
      let (done, next) = plan_step-IsSoundBatch current call s in
      All-append _ (plan_step max_parallel current call).0 _ done
        (plan_from-IsSoundBatch (plan_step max_parallel current call).1 calls next)

-- The batches, one after another, hold exactly the given calls in their order.
pub all_calls-plan_batches :
    (calls : List PlannedCall) (max_parallel : ℕ)
    → all_calls (plan_batches calls max_parallel) ≡ calls
unfolding plan_batches
all_calls-plan_batches calls max_parallel = plan_from-calls max_parallel [] calls

-- Every batch is either one call that is not safe in parallel, marked serial, or is marked
-- parallel, has at least one call and at most max_parallel of them (or one, if that is 0), and all
-- its calls are safe in parallel and without conflicts among each other.
pub plan_batches-IsSoundBatch :
    (calls : List PlannedCall) (max_parallel : ℕ)
    → All (IsSoundBatch max_parallel) (plan_batches calls max_parallel)
unfolding plan_batches
plan_batches-IsSoundBatch calls max_parallel =
    plan_from-IsSoundBatch max_parallel [] calls (refl, refl, omega arith)
