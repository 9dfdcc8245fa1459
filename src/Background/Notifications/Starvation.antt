-- ===== src/Background/Notifications/Starvation.antt =====
-- packages/background/src/notifications.ts: how often in a row a waiting lower level is passed over.
use mathlib.Core.Path.{subst}
use qwen_harness.Prelude.{
  ℕ, zero, suc, ◌+◌, ◌≤◌, ◌≡◌, ◌≢◌, refl, ap, sym, ◌∙◌, inl, inr, List, [], ◌∷◌, some, arith, All,
  Bool-cases, leb, leb_false→lt,
}
use qwen_harness.Background.Notifications.{
  NotificationLevel, one, two, three, four, Notification, NotificationQueue, enqueue, first_waiting,
  top_level, top_level_above, shift, deliver, deliver_from, starvation_threshold,
}
use qwen_harness.Background.Notifications.Delivery.{
  HasLevels, enqueue-HasLevels, deliver-HasLevels, some_pair,
}

abbrev pub enqueue_all : NotificationQueue → List Notification → NotificationQueue
enqueue_all q [] = q
enqueue_all q (n ∷ ns) = enqueue_all (enqueue q n) ns

-- Deliveries in a row that each take from the first level that waits while a lower one waits too; any
-- notifications come in before each.
pub data Passes : NotificationQueue → ℕ → NotificationQueue → Type 0 where
  stop : {q : NotificationQueue} → Passes q 0 q
  pass :
      {q next last : NotificationQueue} {k : ℕ} (arrived : List Notification) (n : Notification)
      (top lower : NotificationLevel)
      → top_level (enqueue_all q arrived) ≡ some top
      → top_level_above (enqueue_all q arrived) top ≡ some lower
      → deliver (enqueue_all q arrived) ≡ some (n, next)
      → n.level ≡ top
      → Passes next k last
      → Passes q (suc k) last

lower-not-top :
    (q : NotificationQueue) (top lower : NotificationLevel)
    → top_level_above q top ≡ some lower
    → lower ≢ top
unfolding top_level_above first_waiting
lower-not-top q one lower h e = ground (arith, h, e)
lower-not-top q two lower h e = ground (arith, h, e)
lower-not-top q three lower h e = ground (arith, h, e)
lower-not-top q four lower h e = cc

shift-level :
    (q r : NotificationQueue) (l : NotificationLevel) (c : ℕ) (n : Notification)
    (ns : List Notification)
    → HasLevels q
    → q.by_level l ≡ ns
    → shift q l c ≡ some (n, r)
    → (n.level ≡ l) × (r.consecutive_high ≡ c)
unfolding shift
shift-level q r l c n [] h e d = ground (arith, e, d)
shift-level q r l c n (x ∷ ns) h e d =
    let head = (subst (All λ n. n.level ≡ l) e (h l)).0 in
    let taken = some_pair (rw (e, shift) at d) in
    (ap (λ n. n.level) (sym taken.0) ∙ head, ap (λ r. r.consecutive_high) (sym taken.1))

-- What a pass does to the counter.
pass_counts :
    (q r : NotificationQueue) (n : Notification) (top lower : NotificationLevel)
    → HasLevels q
    → deliver_from q top (some lower) ≡ some (n, r)
    → lower ≢ top
    → n.level ≡ top
    → (suc q.consecutive_high ≤ starvation_threshold)
      × (r.consecutive_high ≡ suc q.consecutive_high)
unfolding deliver_from
pass_counts q r n top lower h d f e =
    elim (Bool-cases (leb starvation_threshold q.consecutive_high)) [
      | inl full ↦
          let forced = shift-level q r lower 0 n _ h refl (rw full at d) in
          absurd (f (sym forced.0 ∙ e))
      | inr room ↦
          let taken = shift-level q r top (q.consecutive_high + 1) n _ h refl (rw room at d) in
          (ground (arith, leb_false→lt _ _ room), omega (arith, taken.1))
    ]

enqueue_all-HasLevels :
    (q : NotificationQueue) (ns : List Notification) → HasLevels q → HasLevels (enqueue_all q ns)
enqueue_all-HasLevels q [] h = h
enqueue_all-HasLevels q (n ∷ ns) h =
    enqueue_all-HasLevels (enqueue q n) ns (enqueue-HasLevels q n h)

enqueue_all-counter :
    (q : NotificationQueue) (ns : List Notification)
    → (enqueue_all q ns).consecutive_high ≡ q.consecutive_high
unfolding enqueue
enqueue_all-counter q [] = refl
enqueue_all-counter q (n ∷ ns) = (enqueue_all-counter (enqueue q n) ns)

-- If each notification waits at its own level and the counter is at most ten, the number of
-- deliveries in a row that pass over a waiting lower level, with any arrivals between them, and
-- the counter before them make at most ten.
pub Passes-bounded :
    (q r : NotificationQueue) (k : ℕ)
    → HasLevels q
    → q.consecutive_high ≤ starvation_threshold
    → Passes q k r
    → k + q.consecutive_high ≤ starvation_threshold
unfolding deliver
Passes-bounded q r zero h b (stop) = omega (arith, b)
Passes-bounded q r (suc k) h b (pass {next} arrived n top lower t a d e rest) =
    let full = enqueue_all q arrived in
    let levels = enqueue_all-HasLevels q arrived h in
    let counts =
      pass_counts full next n top lower levels (rw (t, a, deliver) at d)
        (lower-not-top full top lower a) e in
    omega (
      arith,
      enqueue_all-counter q arrived,
      counts.0,
      counts.1,
      Passes-bounded next r k (deliver-HasLevels full next n levels d)
          (omega (arith, counts.0, counts.1)) rest,
    )
