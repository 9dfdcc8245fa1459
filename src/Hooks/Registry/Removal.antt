-- ===== src/Hooks/Registry/Removal.antt =====
-- packages/hooks/src/registry.ts: the removal of a hook that was registered.
use qwen_harness.Prelude.{
  ℕ, ◌+◌, Bool, true, false, List, [], ◌∷◌, ◌++◌, none, some, Text, text_eq_refl, ◌≡◌, refl, ap,
  ◌∙◌, keep, All, includes, Bool-cases, inl, inr, if◌then◌else◌, if_both, ◌<◌,
}
use qwen_harness.Hooks.Outcome.{HookEvent}
use qwen_harness.Hooks.Registration.{HookRegistration}
use qwen_harness.Hooks.Registry.{
  StoredHook, HookRegistry, register, unregister, same_event, other, ordered, for_event,
}
use qwen_harness.Hooks.Registry.Buckets.{
  RegistryCall, after_calls, IsValid, after_calls-IsValid, keep-other_id,
}

keep-snoc_out {ℓ} :
    {A : Type ℓ} (p : A → Bool) (xs : List A) (y : A)
    → p y ≡ false
    → keep p (xs ++ y ∷ []) ≡ keep p xs
keep-snoc_out p [] y h = rw h refl
keep-snoc_out p (x ∷ xs) y h = ap (λ l. if p x then x ∷ l else l) (keep-snoc_out p xs y h)

All-taken :
    (seq : ℕ) (ids : List Text) (xs : List StoredHook)
    → All (λ h. (h.seq < seq) × (includes ids h.registration.id ≡ true)) xs
    → All (λ h. includes ids h.registration.id ≡ true) xs
All-taken seq ids [] h = tt
All-taken seq ids (x ∷ xs) h = (h.0.1, All-taken seq ids xs h.1)

-- The registry with one more hook.
abbrev grown : HookRegistry → HookRegistration → HookRegistry
grown g r = record {
  by_event = λ e.
      if same_event e r.event
      then g.by_event e ++ record { registration = r; seq = g.seq } ∷ []
      else g.by_event e;
  ids = r.id ∷ g.ids;
  seq = g.seq + 1;
}

register-grown :
    (g g' : HookRegistry) (r : HookRegistration)
    → register g r ≡ some g'
    → (includes g.ids r.id ≡ false) × (grown g r ≡ g')
unfolding register
register-grown g g' r h = elim (Bool-cases (includes g.ids r.id)) [
  | inl t ↦ let e : none ≡ some g' = rw t at h in cc
  | inr f ↦ let e : some (grown g r) ≡ some g' = rw f at h in (f, cc)
]

unregister-grown :
    (g : HookRegistry) (r : HookRegistration) (e : HookEvent)
    → IsValid g
    → includes g.ids r.id ≡ false
    → ((unregister (grown g r) r.id).0 ≡ true)
      × ((unregister (grown g r) r.id).1.by_event e ≡ g.by_event e)
unfolding unregister
unregister-grown g r e h f =
    let x : StoredHook = record { registration = r; seq = g.seq } in
    let out : other r.id x ≡ false = rw (text_eq_refl r.id) refl in
    let same =
      keep-other_id r.id g.ids (g.by_event e) f (All-taken g.seq g.ids (g.by_event e) (h e).1) in
    rw (text_eq_refl r.id) (
      refl,
      if_both (λ l. keep (other r.id) l ≡ g.by_event e) (same_event e r.event)
          (keep-snoc_out (other r.id) (g.by_event e) x out ∙ same) same,
    )

-- When a registry that any calls left takes a hook, removing the hook by its id succeeds and leaves
-- every event the hooks it had before, in their order.
pub for_event-unregister :
    (cs : List RegistryCall) (r : HookRegistration) (g : HookRegistry) (e : HookEvent)
    → register (after_calls cs) r ≡ some g
    → ((unregister g r.id).0 ≡ true)
      × (for_event (unregister g r.id).1 e ≡ for_event (after_calls cs) e)
unfolding for_event
for_event-unregister cs r g e h =
    let (fresh, same) = register-grown (after_calls cs) g r h in
    let (removed, back) = unregister-grown (after_calls cs) r e (after_calls-IsValid cs) fresh in
    rw (← same) (removed, ap ordered back)
