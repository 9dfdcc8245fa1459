-- ===== src/Policy/Authority/Chains.antt =====
-- packages/policy/src/authority.ts: `intersect` of one delegation and of a chain of them.
use qwen_harness.Prelude.{
  ◌≤◌, ◌<◌, true, false, List, [], ◌∷◌, map, ◌≡◌, refl, ap, ◌⊎◌, inl, inr, arith, Text, includes,
  includes-mem, any, any-Some, any_of_mem, text_eq, text_eq_refl, keep, mem-keep, mem-keep_intro,
  mem-append-cases, mem-append_left, mem-append_right, Bool-cases,
}
use mathlib.Core.List.{Memᴰ}
use qwen_harness.Policy.Rules.{PolicyRule}
use qwen_harness.Policy.Grants.{Grant}
use qwen_harness.Policy.Managed.{
  ManagedPolicy, profile_rank, isolation_rank, least_profile, strictest_isolation,
}
use qwen_harness.Policy.Paths.Within.{is_within, is_within_refl, is_within_trans}
use qwen_harness.Policy.Authority.{
  Authority, allows, restricts, allow_ids, grant_ids, is_covered, rule_survives, intersect,
  is_at_most,
}
use qwen_harness.Policy.Authority.Delegation.{AtMost, is_at_most_iff}

mem-map {ℓ κ} :
    {A : Type ℓ} {B : Type κ} (f : A → B) (b : B) (xs : List A)
    → Memᴰ b (map f xs)
    → (a : A) × Memᴰ a xs × (b ≡ f a)
mem-map f b [] m = elim m [ ]
mem-map f b (x ∷ xs) (Memᴰ.head e) = (x, Memᴰ.head refl, e)
mem-map f b (x ∷ xs) (Memᴰ.tail m) = let (a, n, e) = mem-map f b xs m in (a, Memᴰ.tail n, e)

map-mem {ℓ κ} :
    {A : Type ℓ} {B : Type κ} (f : A → B) (a : A) (xs : List A) → Memᴰ a xs → Memᴰ (f a) (map f xs)
map-mem f a [] m = elim m [ ]
map-mem f a (x ∷ xs) (Memᴰ.head e) = Memᴰ.head (ap f e)
map-mem f a (x ∷ xs) (Memᴰ.tail m) = Memᴰ.tail (map-mem f a xs m)

allow_ids-mem :
    (rule : PolicyRule) (rules : List PolicyRule)
    → Memᴰ rule rules
    → allows rule.effect ≡ true
    → Memᴰ rule.id (allow_ids rules)
unfolding allow_ids
allow_ids-mem rule rules m a =
    map-mem (λ (r : PolicyRule). r.id) rule _
      (mem-keep_intro (λ (r : PolicyRule). allows r.effect) rule rules m a)

mem-allow_ids :
    (id : Text) (rules : List PolicyRule)
    → Memᴰ id (allow_ids rules)
    → (rule : PolicyRule) × Memᴰ rule rules × (allows rule.effect ≡ true) × (id ≡ rule.id)
unfolding allow_ids
mem-allow_ids id rules m =
    let (rule, n, e) = mem-map (λ (r : PolicyRule). r.id) id _ m in
    let (i, a) = mem-keep (λ (r : PolicyRule). allows r.effect) rule rules n in (rule, i, a, e)

is_covered_trans :
    (outer inner : List Text) (root : Text)
    → ((r : Text) → Memᴰ r inner → is_covered outer r ≡ true)
    → is_covered inner root ≡ true
    → is_covered outer root ≡ true
unfolding is_covered
is_covered_trans outer inner root h c =
    let (mid, m, w) = any-Some (λ p. is_within p root) inner c in
    let (top, n, v) = any-Some (λ p. is_within p mid) outer (h mid m) in
    any_of_mem (λ p. is_within p root) top outer n (is_within_trans top mid root v w)

-- The order is transitive.
pub AtMost-trans : (a b c : Authority) → AtMost a b → AtMost b c → AtMost a c
AtMost-trans a b c p q = record {
  profile = omega (arith, p.profile, q.profile);
  isolation = omega (arith, p.isolation, q.isolation);
  network = λ h. q.network (p.network h);
  roots =
      λ root m. is_covered_trans c.workspace_roots b.workspace_roots root q.roots (p.roots root m);
  rules = λ rule m h.
      let (r, n, h', e) = mem-allow_ids rule.id b.rules (p.rules rule m h) in rw e (q.rules r n h');
  grants = λ grant m.
      let (g, n, e) =
        mem-map (λ (g : Grant). g.id) grant.id b.grants (unfold grant_ids in p.grants grant m) in
      rw e (q.grants g n);
  depth = omega (arith, p.depth, q.depth);
}

module _ (requested parent : Authority) (managed : ManagedPolicy) where
  abbrev child : Authority
  child = intersect requested parent managed

  child_rule-cases :
      (rule : PolicyRule)
      → Memᴰ rule child.rules
      → Memᴰ rule parent.rules ⊎ (Memᴰ rule requested.rules × (rule_survives parent rule ≡ true))
  unfolding intersect
  child_rule-cases rule m =
      elim (mem-append-cases rule parent.rules (keep (rule_survives parent) requested.rules) m) [
        | inl old ↦ inl old
        | inr new ↦ inr (mem-keep (rule_survives parent) rule requested.rules new)
      ]

  -- A rule that allows does not survive the filter: it would have to share its id with an allow of
  -- the parent, and with no rule of the parent.
  survivor_restricts :
      (rule : PolicyRule) → rule_survives parent rule ≡ true → allows rule.effect ≡ false
  unfolding rule_survives
  survivor_restricts rule h = elim (Bool-cases (includes (allow_ids parent.rules) rule.id)) [
    | inr none_held ↦ ground arith
    | inl held ↦
        let (r, n, a, e) =
          mem-allow_ids rule.id parent.rules (includes-mem (allow_ids parent.rules) rule.id held) in
        let dup : any (λ (p : PolicyRule). text_eq p.id rule.id) parent.rules ≡ true =
          any_of_mem (λ (p : PolicyRule). text_eq p.id rule.id) r parent.rules n
            (rw e (text_eq_refl r.id)) in
        ground arith
  ]

  -- Every rule that allows in the child's authority is one of the parent's own rules.
  child_allow-mem :
      (rule : PolicyRule)
      → Memᴰ rule child.rules
      → allows rule.effect ≡ true
      → Memᴰ rule parent.rules
  child_allow-mem rule m a = elim (child_rule-cases rule m) [
    | inl old ↦ old
    | inr (n, s) ↦ absurd (ground (arith, survivor_restricts rule s))
  ]

  -- Every rule that denies or asks, from either side, binds the child.
  pub restrictions_kept :
      (rule : PolicyRule)
      → Memᴰ rule parent.rules ⊎ Memᴰ rule requested.rules
      → restricts rule.effect ≡ true
      → Memᴰ rule child.rules
  unfolding intersect rule_survives
  restrictions_kept rule (inl m) r = mem-append_left rule parent.rules _ m
  restrictions_kept rule (inr m) r =
      mem-append_right rule parent.rules _ (
        mem-keep_intro (rule_survives parent) rule requested.rules m (unfold rule_survives in rw r))

  child-AtMost : AtMost child parent
  unfolding intersect least_profile strictest_isolation grant_ids
  child-AtMost = record {
    profile = ground arith;
    isolation = ground arith;
    network = λ n. ground arith;
    roots = λ root m. (mem-keep (is_covered parent.workspace_roots) root _ m).1;
    rules = λ rule m a. allow_ids-mem rule parent.rules (child_allow-mem rule m a) a;
    grants = λ grant m.
        includes-mem (grant_ids parent.grants) grant.id
          (mem-keep (λ (g : Grant). includes (grant_ids parent.grants) g.id) grant requested.grants
            m).1;
    depth = omega arith;
  }

  -- What a child receives never exceeds its parent: the check that the runtime asserts holds for
  -- every request and every managed policy.
  pub intersect-is_at_most : is_at_most child parent ≡ true
  intersect-is_at_most = (is_at_most_iff child parent).1 child-AtMost

  -- Nor does it exceed the managed ceiling, and below a parent that may delegate it can delegate
  -- less deeply.
  intersect_capped :
      (profile_rank child.profile ≤ profile_rank managed.max_profile)
      × (isolation_rank child.isolation ≤ isolation_rank managed.max_isolation)
      × (child.network_allowed ≡ true → managed.network_allowed ≡ true)
      × (child.max_child_depth ≤ managed.max_child_depth)
      × (0 < parent.max_child_depth → child.max_child_depth < parent.max_child_depth)
  unfolding intersect least_profile strictest_isolation
  intersect_capped =
      (ground arith, ground arith, (λ n. ground arith), omega arith, λ d. omega arith)

-- The authority at the end of a chain: each request is met from what the one before it received.
unfoldable pub delegate : Authority → List (Authority × ManagedPolicy) → Authority
delegate holder [] = holder
delegate holder ((requested, managed) ∷ rest) = delegate (intersect requested holder managed) rest

delegate-AtMost :
    (holder : Authority) (requests : List (Authority × ManagedPolicy))
    → AtMost (delegate holder requests) holder
unfolding delegate is_covered grant_ids
delegate-AtMost holder [] = record {
  profile = omega arith;
  isolation = omega arith;
  network = λ n. n;
  roots = λ root m.
      any_of_mem (λ p. is_within p root) root holder.workspace_roots m (is_within_refl root);
  rules = λ rule m a. allow_ids-mem rule holder.rules m a;
  grants = λ grant m. map-mem (λ (g : Grant). g.id) grant holder.grants m;
  depth = omega arith;
}
delegate-AtMost holder ((requested, managed) ∷ rest) =
    AtMost-trans (delegate (intersect requested holder managed) rest)
      (intersect requested holder managed) holder
      (delegate-AtMost (intersect requested holder managed) rest)
      (child-AtMost requested holder managed)

-- However long a chain of delegations is and whatever is requested on it, its end has at most the
-- authority of its start.
pub delegate-is_at_most :
    (holder : Authority) (requests : List (Authority × ManagedPolicy))
    → is_at_most (delegate holder requests) holder ≡ true
delegate-is_at_most holder requests =
    (is_at_most_iff (delegate holder requests) holder).1 (delegate-AtMost holder requests)
