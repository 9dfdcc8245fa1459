-- ===== src/Hooks/Registry/Buckets.antt =====
-- packages/hooks/src/registry.ts: the buckets of a registry after any calls of `register` and
-- `unregister`.
use qwen_harness.Prelude.{
  ℕ, ◌+◌, ◌<◌, Bool, true, false, not, List, [], ◌∷◌, ◌++◌, Option, none, some, Text, text_eq,
  text_eq→eq, text_eq_refl, ◌≡◌, refl, ap, arith, keep, All, includes, Bool-cases, inl, inr,
  if_both,
}
use qwen_harness.Hooks.Outcome.{HookEvent}
use qwen_harness.Hooks.Registration.{HookRegistration, HookInvocation, ℤ}
use qwen_harness.Hooks.Registry.{
  StoredHook, HookRegistry, new_registry, register, unregister, same_event, other, ordered,
  matching, applicable,
}
use qwen_harness.Hooks.Registry.Order.{
  IsOrdered, IsRegistered, has_priority, registrations, sort_hooks-IsOrdered, keep-sort_hooks,
}

pub data RegistryCall : Type 0 where
  added : HookRegistration → RegistryCall
  removed : Text → RegistryCall

abbrev or_unchanged : HookRegistry → Option HookRegistry → HookRegistry
or_unchanged g none = g
or_unchanged g (some g') = g'

-- A call that throws leaves the registry as it was.
abbrev pub call : HookRegistry → RegistryCall → HookRegistry
call g (RegistryCall.added r) = or_unchanged g (register g r)
call g (RegistryCall.removed id) = (unregister g id).1

-- The registry after the calls, the last of them first in the list.
abbrev pub after_calls : List RegistryCall → HookRegistry
after_calls [] = new_registry
after_calls (c ∷ cs) = call (after_calls cs) c

-- A bucket in the order of registration, of hooks whose ids are taken.
abbrev pub IsBucket : ℕ → List Text → List StoredHook → Type 0
IsBucket seq ids hooks =
    IsRegistered hooks × All (λ h. (h.seq < seq) × (includes ids h.registration.id ≡ true)) hooks

abbrev pub IsValid : HookRegistry → Type 0
IsValid g = (e : HookEvent) → IsBucket g.seq g.ids (g.by_event e)

module _ {ℓ κ} {A : Type ℓ} (P : A → Type κ) where
  All-keep : (p : A → Bool) (xs : List A) → All P xs → All P (keep p xs)
  All-keep p [] h = tt
  All-keep p (x ∷ xs) h = if_both (All P) (p x) (h.0, All-keep p xs h.1) (All-keep p xs h.1)

  All-snoc : (xs : List A) (y : A) → All P xs → P y → All P (xs ++ y ∷ [])
  All-snoc [] y h p = (p, tt)
  All-snoc (x ∷ xs) y h p = (h.0, All-snoc xs y h.1 p)

  All-map {μ} : (Q : A → Type μ) (f : (a : A) → P a → Q a) (xs : List A) → All P xs → All Q xs
  All-map Q f [] h = tt
  All-map Q f (x ∷ xs) h = (f x h.0, All-map Q f xs h.1)

IsRegistered-keep :
    (p : StoredHook → Bool) (xs : List StoredHook) → IsRegistered xs → IsRegistered (keep p xs)
IsRegistered-keep p [] h = tt
IsRegistered-keep p (x ∷ xs) h =
    if_both IsRegistered (p x) (All-keep (λ y. x.seq < y.seq) p xs h.0, IsRegistered-keep p xs h.1)
      (IsRegistered-keep p xs h.1)

IsRegistered-snoc :
    (xs : List StoredHook) (y : StoredHook)
    → IsRegistered xs
    → All (λ x. x.seq < y.seq) xs
    → IsRegistered (xs ++ y ∷ [])
IsRegistered-snoc [] y h k = (tt, tt)
IsRegistered-snoc (x ∷ xs) y h k =
    (All-snoc (λ y. x.seq < y.seq) xs y h.0 k.0, IsRegistered-snoc xs y h.1 k.1)

-- The test of an id against the kept hooks and the kept ids.
includes-keep :
    (id : Text) (xs : List Text) (i : Text)
    → includes xs i ≡ true
    → not (text_eq id i) ≡ true
    → includes (keep (λ x. not (text_eq id x)) xs) i ≡ true
includes-keep id [] i h k = cc
includes-keep id (x ∷ xs) i h k = elim (Bool-cases (text_eq i x)) [
  | inl t ↦
      let e = text_eq→eq i x t in
      let other_id : not (text_eq id x) ≡ true = rw (← e) k in rw other_id (rw t refl)
  | inr f ↦
      let later = includes-keep id xs i (rw f at h) k in
      if_both (λ l. includes l i ≡ true) (not (text_eq id x)) (rw (f, later) refl) later
]

-- A bucket whose hooks all have other ids.
pub keep-other_id :
    (id : Text) (ids : List Text) (xs : List StoredHook)
    → includes ids id ≡ false
    → All (λ h. includes ids h.registration.id ≡ true) xs
    → keep (other id) xs ≡ xs
keep-other_id id ids [] h k = refl
keep-other_id id ids (x ∷ xs) h k = elim (Bool-cases (text_eq id x.registration.id)) [
  | inl t ↦ let e = text_eq→eq id x.registration.id t in absurd (cc)
  | inr f ↦ rw f (ap (λ l. x ∷ l) (keep-other_id id ids xs h k.1))
]

IsBucket-keep :
    (seq : ℕ) (ids : List Text) (id : Text) (xs : List StoredHook)
    → IsBucket seq ids xs
    → IsBucket seq (keep (λ i. not (text_eq id i)) ids) (keep (other id) xs)
IsBucket-keep seq ids id xs h = (IsRegistered-keep (other id) xs h.0, kept xs h.1)
  where
    kept :
        (ys : List StoredHook)
        → All (λ h. (h.seq < seq) × (includes ids h.registration.id ≡ true)) ys
        → All
            (λ h.
              (h.seq < seq)
              × (includes (keep (λ i. not (text_eq id i)) ids) h.registration.id ≡ true))
            (keep (other id) ys)
    kept [] k = tt
    kept (y ∷ ys) k = elim (Bool-cases (text_eq id y.registration.id)) [
      | inl t ↦ rw t (kept ys k.1)
      | inr f ↦
          rw f ((k.0.0, includes-keep id ids y.registration.id k.0.1 (rw f refl)), kept ys k.1)
    ]

IsBucket-later :
    (seq : ℕ) (ids : List Text) (id : Text) (xs : List StoredHook)
    → IsBucket seq ids xs
    → IsBucket (seq + 1) (id ∷ ids) xs
IsBucket-later seq ids id xs h = (
  h.0,
  All-map (λ h. (h.seq < seq) × (includes ids h.registration.id ≡ true))
      (λ h. (h.seq < seq + 1) × (includes (id ∷ ids) h.registration.id ≡ true))
      (λ x p. (omega (arith, p.0), ground (arith, p.1))) xs h.1,
)

IsBucket-snoc :
    (seq : ℕ) (ids : List Text) (r : HookRegistration) (xs : List StoredHook)
    → IsBucket seq ids xs
    → IsBucket (seq + 1) (r.id ∷ ids) (xs ++ record { registration = r; seq = seq } ∷ [])
IsBucket-snoc seq ids r xs h = (
  IsRegistered-snoc xs (record { registration = r; seq = seq }) h.0
      (All-map (λ h. (h.seq < seq) × (includes ids h.registration.id ≡ true)) (λ h. h.seq < seq)
        (λ x p. p.0) xs h.1),
  All-snoc (λ h. (h.seq < seq + 1) × (includes (r.id ∷ ids) h.registration.id ≡ true)) xs
      (record { registration = r; seq = seq }) (IsBucket-later seq ids r.id xs h).1
      (omega arith, rw (text_eq_refl r.id) refl),
)

register-IsValid :
    (g : HookRegistry) (r : HookRegistration) → IsValid g → IsValid (or_unchanged g (register g r))
unfolding register
register-IsValid g r h =
    if_both (λ o. IsValid (or_unchanged g o)) (includes g.ids r.id) h
      (λ e.
        if_both (IsBucket (g.seq + 1) (r.id ∷ g.ids)) (same_event e r.event)
          (IsBucket-snoc g.seq g.ids r (g.by_event e) (h e))
          (IsBucket-later g.seq g.ids r.id (g.by_event e) (h e)))

unregister-IsValid : (g : HookRegistry) (id : Text) → IsValid g → IsValid (unregister g id).1
unfolding unregister
unregister-IsValid g id h =
    if_both (λ (o : Bool × HookRegistry). IsValid o.1) (includes g.ids id)
      (λ e. IsBucket-keep g.seq g.ids id (g.by_event e) (h e)) h

pub after_calls-IsValid : (cs : List RegistryCall) → IsValid (after_calls cs)
after_calls-IsValid [] = λ e. (tt, tt)
after_calls-IsValid (RegistryCall.added r ∷ cs) =
    register-IsValid (after_calls cs) r (after_calls-IsValid cs)
after_calls-IsValid (RegistryCall.removed id ∷ cs) =
    unregister-IsValid (after_calls cs) id (after_calls-IsValid cs)

ordered-order :
    (p : ℤ) (xs : List StoredHook)
    → IsRegistered xs
    → IsOrdered (ordered xs)
      × (keep (has_priority p) (ordered xs) ≡ keep (has_priority p) (registrations xs))
unfolding ordered
ordered-order p xs h = (sort_hooks-IsOrdered xs, keep-sort_hooks p xs h)

-- In the registry that any calls leave, the hooks that run for an invocation come with priorities
-- that do not fall, and those of one priority are the applicable hooks of the event's bucket with
-- that priority, in the order in which they were registered.
pub matching-order :
    (cs : List RegistryCall) (invocation : HookInvocation) (p : ℤ)
    → IsOrdered (matching (after_calls cs) invocation)
      × (keep (has_priority p) (matching (after_calls cs) invocation)
          ≡ keep (has_priority p) (
              registrations
                (keep (applicable invocation) ((after_calls cs).by_event invocation.event))))
unfolding matching
matching-order cs invocation p =
    let bucket = (after_calls cs).by_event invocation.event in
    ordered-order p (keep (applicable invocation) bucket)
      (IsRegistered-keep (applicable invocation) bucket (after_calls-IsValid cs invocation.event).0)
