-- ===== src/Hooks/Registry/Order.antt =====
-- packages/hooks/src/registry.ts: the order in which the hooks of an event run.
use qwen_harness.Prelude.{
  ◌<◌, Bool, true, false, not, ◌&&◌, List, [], ◌∷◌, map, ◌≡◌, refl, ap, ◌∙◌, arith, keep, All,
  Bool-cases, inl, inr, if◌then◌else◌, if_both,
}
use qwen_harness.Hooks.Registration.{HookRegistration, ℤ, ltb_int, priority_of}
use qwen_harness.Hooks.Registry.{StoredHook, runs_before, insert_hook, sort_hooks}

ltb_int_asymm : (a b : ℤ) → ltb_int a b ≡ true → ltb_int b a ≡ false
unfolding ltb_int
ltb_int_asymm a b = ground arith

ltb_int_total : (a b c : ℤ) → ltb_int b a ≡ false → ltb_int c b ≡ false → ltb_int c a ≡ false
unfolding ltb_int
ltb_int_total a b c = ground arith

abbrev priority : StoredHook → ℤ
priority h = priority_of h.registration

-- The priorities do not fall.
abbrev pub IsOrdered : List HookRegistration → Type 0
IsOrdered [] = Unit
IsOrdered (x ∷ xs) = All (λ y. ltb_int (priority_of y) (priority_of x) ≡ false) xs × IsOrdered xs

-- Whether a hook has a priority.
abbrev pub has_priority : ℤ → HookRegistration → Bool
has_priority p r = not (ltb_int (priority_of r) p) && not (ltb_int p (priority_of r))

-- The hooks were registered one after the other.
abbrev pub IsRegistered : List StoredHook → Type 0
IsRegistered [] = Unit
IsRegistered (x ∷ xs) = All (λ y. x.seq < y.seq) xs × IsRegistered xs

abbrev pub registrations : List StoredHook → List HookRegistration
registrations hooks = map (λ h. h.registration) hooks

runs_before-true :
    (x y : StoredHook) → runs_before x y ≡ true → ltb_int (priority y) (priority x) ≡ false
unfolding runs_before
runs_before-true x y h = elim (Bool-cases (ltb_int (priority x) (priority y))) [
  | inl t ↦ ltb_int_asymm (priority x) (priority y) t
  | inr f ↦ ground (arith, f, h)
]

runs_before-false :
    (x y : StoredHook) → runs_before x y ≡ false → ltb_int (priority x) (priority y) ≡ false
unfolding runs_before
runs_before-false x y h = ground (arith, h)

All-insert_hook {κ} :
    (P : HookRegistration → Type κ) (x : StoredHook) (ys : List StoredHook)
    → P x.registration
    → All P (registrations ys)
    → All P (registrations (insert_hook x ys))
unfolding insert_hook
All-insert_hook P x [] p h = (p, tt)
All-insert_hook P x (y ∷ ys) p h =
    if_both (λ l. All P (registrations l)) (runs_before x y) (p, h)
      (h.0, All-insert_hook P x ys p h.1)

All-map {ℓ κ μ} :
    {A : Type ℓ} {P : A → Type κ} {Q : A → Type μ} (f : (a : A) → P a → Q a) (xs : List A)
    → All P xs
    → All Q xs
All-map f [] h = tt
All-map f (x ∷ xs) h = (f x h.0, All-map f xs h.1)

insert_hook-IsOrdered :
    (x : StoredHook) (ys : List StoredHook)
    → IsOrdered (registrations ys)
    → IsOrdered (registrations (insert_hook x ys))
unfolding insert_hook
insert_hook-IsOrdered x [] h = (tt, tt)
insert_hook-IsOrdered x (y ∷ ys) h = elim (Bool-cases (runs_before x y)) [
  | inl t ↦
      let first = runs_before-true x y t in
      rw t (
        (first, All-map (λ z. ltb_int_total (priority x) (priority y) (priority_of z) first) _ h.0),
        h,
      )
  | inr f ↦ rw f (
    All-insert_hook (λ z. ltb_int (priority_of z) (priority y) ≡ false) x ys
        (runs_before-false x y f) h.0,
    insert_hook-IsOrdered x ys h.1,
  )
]

pub sort_hooks-IsOrdered : (xs : List StoredHook) → IsOrdered (registrations (sort_hooks xs))
unfolding sort_hooks
sort_hooks-IsOrdered [] = tt
sort_hooks-IsOrdered (x ∷ xs) = insert_hook-IsOrdered x (sort_hooks xs) (sort_hooks-IsOrdered xs)

All-insert {κ} :
    (P : StoredHook → Type κ) (x : StoredHook) (ys : List StoredHook)
    → P x
    → All P ys
    → All P (insert_hook x ys)
unfolding insert_hook
All-insert P x [] p h = (p, tt)
All-insert P x (y ∷ ys) p h =
    if_both (All P) (runs_before x y) (p, h) (h.0, All-insert P x ys p h.1)

All-sort_hooks {κ} :
    (P : StoredHook → Type κ) (xs : List StoredHook) → All P xs → All P (sort_hooks xs)
unfolding sort_hooks
All-sort_hooks P [] h = tt
All-sort_hooks P (x ∷ xs) h = All-insert P x (sort_hooks xs) h.0 (All-sort_hooks P xs h.1)

-- Of two hooks of one priority the one registered first runs before the other.
runs_before-same :
    (p : ℤ) (x y : StoredHook)
    → has_priority p x.registration ≡ true
    → has_priority p y.registration ≡ true
    → x.seq < y.seq
    → runs_before x y ≡ true
unfolding runs_before
runs_before-same p x y hx hy h = ground (
  arith,
  hx,
  hy,
  ltb_int_total (priority x) p (priority y),
  ltb_int_total (priority y) p (priority x),
)

keep-insert_hook :
    (p : ℤ) (x : StoredHook) (ys : List StoredHook)
    → All (λ y. x.seq < y.seq) ys
    → keep (has_priority p) (registrations (insert_hook x ys))
      ≡ keep (has_priority p) (registrations (x ∷ ys))
unfolding insert_hook
keep-insert_hook p x [] h = refl
keep-insert_hook p x (y ∷ ys) h =
    ground (arith, runs_before-same p x y, h.0, keep-insert_hook p x ys h.1)

pub keep-sort_hooks :
    (p : ℤ) (xs : List StoredHook)
    → IsRegistered xs
    → keep (has_priority p) (registrations (sort_hooks xs))
      ≡ keep (has_priority p) (registrations xs)
unfolding sort_hooks
keep-sort_hooks p [] h = refl
keep-sort_hooks p (x ∷ xs) h =
    keep-insert_hook p x (sort_hooks xs) (All-sort_hooks (λ y. x.seq < y.seq) xs h.0)
    ∙ ap (λ l. if has_priority p x.registration then x.registration ∷ l else l)
        (keep-sort_hooks p xs h.1)
