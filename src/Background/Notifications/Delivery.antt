-- ===== src/Background/Notifications/Delivery.antt =====
-- packages/background/src/notifications.ts: what the queue delivers, and in which order.
use mathlib.Core.Path.{subst}
use qwen_harness.Prelude.{
  ℕ, zero, suc, ◌+◌, ◌≡◌, refl, sym, ◌∙◌, ◌⊎◌, inl, inr, true, List, [], ◌∷◌, ◌++◌, Option, none,
  some, arith, length, keep, All, if_both, Bool-cases, Option-cases, leb,
}
use qwen_harness.Background.Notifications.{
  NotificationLevel, one, two, three, four, Notification, NotificationQueue, level_eq, set_level,
  enqueue, size, waits, first_waiting, top_level, top_level_above, levels_above, shift, deliver,
  deliver_from, drain, drain_for, starvation_threshold,
}

-- A delivery finds every level empty, or takes the first of some level.
abbrev Delivers : NotificationQueue → Option (Notification × NotificationQueue) → Type 0
Delivers q r =
    (((l : NotificationLevel) → q.by_level l ≡ []) × (r ≡ none))
    ⊎ ((l : NotificationLevel) × (n : Notification) × (ns : List Notification) × (c : ℕ)
        × (q.by_level l ≡ n ∷ ns)
        × (r ≡ some (n, record { by_level = set_level l ns q.by_level; consecutive_high = c })))

shift-Delivers :
    (q : NotificationQueue) (l : NotificationLevel) (c : ℕ) (ns : List Notification)
    → q.by_level l ≡ ns
    → waits q l ≡ true
    → Delivers q (shift q l c)
unfolding shift
shift-Delivers q l c [] e w = ground (arith, e)
shift-Delivers q l c (n ∷ ns) e w = inr (l, n, ns, c, e, rw (e, shift) refl)

first_waiting_lem :
    (q : NotificationQueue) (ls : List NotificationLevel) (l : NotificationLevel)
    → first_waiting q ls ≡ some l
    → waits q l ≡ true
unfolding first_waiting
first_waiting_lem q [] l h = cc
first_waiting_lem q (x ∷ ls) l h = ground (arith, first_waiting_lem q ls l)

none_waits :
    (q : NotificationQueue) → top_level q ≡ none → (l : NotificationLevel) → q.by_level l ≡ []
unfolding top_level first_waiting
none_waits q h one = ground (arith, h)
none_waits q h two = ground (arith, h)
none_waits q h three = ground (arith, h)
none_waits q h four = ground (arith, h)

deliver_from-Delivers :
    (q : NotificationQueue) (top : NotificationLevel) (lower : Option NotificationLevel)
    → waits q top ≡ true
    → ((l : NotificationLevel) → lower ≡ some l → waits q l ≡ true)
    → Delivers q (deliver_from q top lower)
unfolding deliver_from
deliver_from-Delivers q top none w f = shift-Delivers q top 0 _ refl w
deliver_from-Delivers q top (some lower) w f =
    if_both (Delivers q) (leb starvation_threshold q.consecutive_high)
      (shift-Delivers q lower 0 _ refl (f lower refl))
      (shift-Delivers q top (q.consecutive_high + 1) _ refl w)

pub deliver-Delivers : (q : NotificationQueue) → Delivers q (deliver q)
unfolding deliver top_level top_level_above
deliver-Delivers q = elim (Option-cases (top_level q)) [
  | inl e ↦ rw (e, deliver) (inl (none_waits q e, refl))
  | inr (top, e) ↦
      rw (e, deliver)
        (deliver_from-Delivers q top (top_level_above q top)
          (first_waiting_lem q (one ∷ two ∷ three ∷ four ∷ []) top e)
          λ l f. first_waiting_lem q (levels_above top) l f)
]

-- Each notification waits at its own level.
abbrev pub HasLevels : NotificationQueue → Type 0
HasLevels q = (l : NotificationLevel) → All (λ n. n.level ≡ l) (q.by_level l)

All-append_one :
    (l : NotificationLevel) (ns : List Notification) (n : Notification)
    → All (λ n. n.level ≡ l) ns
    → n.level ≡ l
    → All (λ n. n.level ≡ l) (ns ++ n ∷ [])
All-append_one l [] n h e = (e, tt)
All-append_one l (x ∷ ns) n h e = (h.0, All-append_one l ns n h.1 e)

level_eq→eq : (a b : NotificationLevel) → level_eq a b ≡ true → a ≡ b
level_eq→eq a b h = grind arith

pub enqueue-HasLevels :
    (q : NotificationQueue) (n : Notification) → HasLevels q → HasLevels (enqueue q n)
unfolding enqueue
enqueue-HasLevels q n h l = elim (Bool-cases (level_eq l n.level)) [
  | inl e ↦ rw e (
      All-append_one l (q.by_level n.level) n (rw (level_eq→eq l n.level e) (h n.level))
        (sym (level_eq→eq l n.level e)))
  | inr e ↦ rw e (h l)
]

pub size-shifted :
    (q : NotificationQueue) (l : NotificationLevel) (n : Notification) (ns : List Notification)
    (c : ℕ)
    → q.by_level l ≡ n ∷ ns
    → size q ≡ suc (size (record { by_level = set_level l ns q.by_level; consecutive_high = c }))
unfolding size
size-shifted q one n ns c e = rw e (omega arith)
size-shifted q two n ns c e = rw e (omega arith)
size-shifted q three n ns c e = rw e (omega arith)
size-shifted q four n ns c e = rw e (omega arith)

no_length : (ns : List Notification) → length ns ≡ 0 → ns ≡ []
no_length [] h = refl
no_length (n ∷ ns) h = ground (arith, h)

size-empty : (q : NotificationQueue) (l : NotificationLevel) → size q ≡ 0 → q.by_level l ≡ []
unfolding size
size-empty q one h = no_length _ (omega (arith, h))
size-empty q two h = no_length _ (omega (arith, h))
size-empty q three h = no_length _ (omega (arith, h))
size-empty q four h = no_length _ (omega (arith, h))

level_eq_refl : (l : NotificationLevel) → level_eq l l ≡ true
level_eq_refl l = grind arith

level_eq_comm : (a b : NotificationLevel) → level_eq a b ≡ level_eq b a
level_eq_comm a b = grind arith

module _ (q : NotificationQueue) (h : HasLevels q) (level : NotificationLevel) (n : Notification)
    (ns : List Notification) (count : ℕ) (e : q.by_level level ≡ n ∷ ns) where
  abbrev shifted : NotificationQueue
  shifted = record { by_level = set_level level ns q.by_level; consecutive_high = count }

  head_level : (n.level ≡ level) × All (λ n. n.level ≡ level) ns
  head_level = subst (All λ n. n.level ≡ level) e (h level)

  shifted-HasLevels : HasLevels shifted
  shifted-HasLevels l = elim (Bool-cases (level_eq l level)) [
    | inl f ↦ rw f (rw (level_eq→eq l level f) (head_level.1))
    | inr f ↦ rw f (h l)
  ]

  -- What stays in a level, with the notification that was taken if it is the level's.
  keep-shifted :
      (l : NotificationLevel) (out : List Notification)
      → keep (λ n. level_eq n.level l) out ≡ shifted.by_level l
      → keep (λ n. level_eq n.level l) (n ∷ out) ≡ q.by_level l
  keep-shifted l out ih = elim (Bool-cases (level_eq l level)) [
    | inl f ↦ ground (arith, ih, e, head_level.0, level_eq_refl l, level_eq→eq l level f)
    | inr f ↦ ground (arith, ih, e, head_level.0, f, level_eq_comm l level)
  ]

keep-drain_for :
    (fuel : ℕ) (q : NotificationQueue) (l : NotificationLevel)
    → HasLevels q
    → size q ≡ fuel
    → keep (λ n. level_eq n.level l) (drain_for fuel q) ≡ q.by_level l
unfolding drain_for
keep-drain_for zero q l h f = sym (size-empty q l f)
keep-drain_for (suc fuel) q l h f = elim (deliver-Delivers q) [
  | inl (nothing, e) ↦ rw (e, drain_for, nothing l) refl
  | inr (level, n, ns, c, e, d) ↦
      rw (d, drain_for)
        (keep-shifted q h level n ns c e l _ (
          keep-drain_for fuel _ l (shifted-HasLevels q h level n ns c e)
            (omega (arith, f, size-shifted q level n ns c e))))
]

-- Draining a queue in which each notification waits at its own level delivers all the
-- notifications of each level, in the order in which they came.
pub keep-drain :
    (q : NotificationQueue) (l : NotificationLevel)
    → HasLevels q
    → keep (λ n. level_eq n.level l) (drain q) ≡ q.by_level l
unfolding drain
keep-drain q l h = keep-drain_for (size q) q l h refl

pub some_pair {ℓ κ} :
    {A : Type ℓ} {B : Type κ} {a c : A} {b d : B}
    → ◌≡◌ {A = Option (A × B)} (some (a, b)) (some (c, d))
    → (a ≡ c) × (b ≡ d)
some_pair h = (cc, cc)

pub deliver-HasLevels :
    (q r : NotificationQueue) (n : Notification)
    → HasLevels q
    → deliver q ≡ some (n, r)
    → HasLevels r
deliver-HasLevels q r n h d = elim (deliver-Delivers q) [
  | inl (nothing, e) ↦ cc
  | inr (level, x, ns, c, e, f) ↦
      subst HasLevels ((some_pair (sym f ∙ d)).1) (shifted-HasLevels q h level x ns c e)
]
