-- ===== src/Tools/Scheduler/Conflicts.antt =====
-- packages/tools-core/src/scheduler.ts: `conflicts` against the paths that two calls share.
use qwen_harness.Prelude.{
  Bool, true, false, ◌||◌, List, ◌≡◌, ◌↔◌, ◌⊎◌, inl, inr, Text, includes, any, any-Some, any_of_mem,
  includes-mem, mem-includes, refl,
}
use mathlib.Core.List.{Memᴰ}
use qwen_harness.Tools.Scheduler.{PlannedCall, conflicts}

-- A path that stands in both lists.
abbrev pub Meet : List Text → List Text → Type 0
Meet xs ys = (path : Text) × Memᴰ path xs × Memᴰ path ys

-- Both calls are bounded, or else nothing is known of what they share.
abbrev pub Clash : PlannedCall → PlannedCall → Type 0
Clash a b =
    (a.footprint.unbounded ≡ true)
    ⊎ (b.footprint.unbounded ≡ true)
    ⊎ Meet a.footprint.writes b.footprint.writes
    ⊎ Meet a.footprint.reads b.footprint.writes
    ⊎ Meet b.footprint.reads a.footprint.writes

any-includes-Meet : (xs ys : List Text) → (any (includes ys) xs ≡ true) ↔ Meet xs ys
any-includes-Meet xs ys = (
  λ h. let (p, m, e) = any-Some (includes ys) xs h in (p, m, includes-mem ys p e),
  λ (p, m, n). any_of_mem (includes ys) p xs m (mem-includes ys p n),
)

or_iff {ℓ ℓ'} :
    {P : Type ℓ} {Q : Type ℓ'} (a b : Bool)
    → (a ≡ true) ↔ P
    → (b ≡ true) ↔ Q
    → (a || b ≡ true) ↔ (P ⊎ Q)
or_iff true b p q = (λ h. inl (p.0 h), λ h. refl)
or_iff false b p q =
    (λ h. inr (q.0 h), λ h. elim h [ inl x ↦ let e : false ≡ true = p.1 x in cc | inr y ↦ q.1 y ])

-- Two calls conflict exactly if one of them is unbounded, or one writes a path that the other reads
-- or writes.
conflicts_iff : (a b : PlannedCall) → (conflicts a b ≡ true) ↔ Clash a b
unfolding conflicts
conflicts_iff a b =
    let f = a.footprint in
    let g = b.footprint in
    or_iff f.unbounded _ (λ h. h, λ h. h)
      (or_iff g.unbounded _ (λ h. h, λ h. h)
        (or_iff (any (includes g.writes) f.writes) _ (any-includes-Meet f.writes g.writes) (
          or_iff (any (includes g.writes) f.reads) _ (any-includes-Meet f.reads g.writes)
            (any-includes-Meet g.reads f.writes))))
