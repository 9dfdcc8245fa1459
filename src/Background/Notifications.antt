-- ===== src/Background/Notifications.antt =====
-- packages/background/src/notifications.ts: the queue of four levels with its guard against starvation.
pub mod Delivery
pub mod Starvation
use qwen_harness.Prelude.{
  ℕ, zero, suc, ◌+◌, Bool, true, false, not, ◌&&◌, List, [], ◌∷◌, ◌++◌, Option, none, some, Text,
  leb, length, is_empty, if◌then◌else◌,
}

pub data NotificationKind : Type 0 where
  approval elicitation shutdown security_failure input_request : NotificationKind
  task_failure agent_state team_state lost_remote : NotificationKind
  background_completion cron_fire : NotificationKind
  progress status : NotificationKind

pub data NotificationLevel : Type 0 where
  one two three four : NotificationLevel

abbrev pub level_of : NotificationKind → NotificationLevel
level_of approval = one
level_of elicitation = one
level_of shutdown = one
level_of security_failure = one
level_of input_request = one
level_of task_failure = two
level_of agent_state = two
level_of team_state = two
level_of lost_remote = two
level_of background_completion = three
level_of cron_fire = three
level_of progress = four
level_of status = four

abbrev pub level_eq : NotificationLevel → NotificationLevel → Bool
level_eq one one = true
level_eq two two = true
level_eq three three = true
level_eq four four = true
level_eq _ _ = false

pub record Notification : Type 0 where
  pub id : Text
  pub kind : NotificationKind
  pub level : NotificationLevel
  pub subject_id : Text
  pub message : Text
  pub created_at : ℕ

abbrev pub starvation_threshold : ℕ
starvation_threshold = 10

pub record NotificationQueue : Type 0 where
  pub by_level : NotificationLevel → List Notification
  pub consecutive_high : ℕ

abbrev pub empty_queue : NotificationQueue
empty_queue = record { by_level = λ l. []; consecutive_high = 0 }

-- The queues with the one of a level replaced.
abbrev pub set_level :
    NotificationLevel
    → List Notification
    → (NotificationLevel → List Notification)
    → NotificationLevel
    → List Notification
set_level level ns by_level l = if level_eq l level then ns else by_level l

unfoldable pub enqueue : NotificationQueue → Notification → NotificationQueue
enqueue q n = record q { by_level = set_level n.level (q.by_level n.level ++ n ∷ []) q.by_level }

unfoldable pub size : NotificationQueue → ℕ
size q =
    length (q.by_level one)
    + (length (q.by_level two) + (length (q.by_level three) + length (q.by_level four)))

abbrev pub waits : NotificationQueue → NotificationLevel → Bool
waits q l = not (is_empty (q.by_level l))

-- The first level of the list with a notification that waits.
unfoldable pub first_waiting : NotificationQueue → List NotificationLevel → Option NotificationLevel
first_waiting q [] = none
first_waiting q (l ∷ ls) = if waits q l then some l else first_waiting q ls

abbrev pub levels_above : NotificationLevel → List NotificationLevel
levels_above one = two ∷ three ∷ four ∷ []
levels_above two = three ∷ four ∷ []
levels_above three = four ∷ []
levels_above four = []

unfoldable pub top_level : NotificationQueue → Option NotificationLevel
unfolding first_waiting
top_level q = first_waiting q (one ∷ two ∷ three ∷ four ∷ [])

unfoldable pub top_level_above : NotificationQueue → NotificationLevel → Option NotificationLevel
unfolding first_waiting
top_level_above q level = first_waiting q (levels_above level)

unfoldable pub peek_level : NotificationQueue → Option NotificationLevel
unfolding top_level top_level_above
peek_level q = elim (top_level q) [
  | none ↦ none
  | some top ↦
      if leb starvation_threshold q.consecutive_high
      then elim (top_level_above q top) [ some lower ↦ some lower | none ↦ some top ]
      else some top
]

-- `this.#queue(level).shift() ?? null`, with the counter that is left.
unfoldable pub shift :
    NotificationQueue → NotificationLevel → ℕ → Option (Notification × NotificationQueue)
shift q level count = elim (q.by_level level) [
  | [] ↦ none
  | n ∷ ns ↦ some (n, record { by_level = set_level level ns q.by_level; consecutive_high = count })
]

-- From the level `top`, where `lower` is the first of the lower ones that waits.
unfoldable pub deliver_from :
    NotificationQueue
    → NotificationLevel
    → Option NotificationLevel
    → Option (Notification × NotificationQueue)
unfolding shift
deliver_from q top none = shift q top 0
deliver_from q top (some lower) =
    if leb starvation_threshold q.consecutive_high
    then shift q lower 0
    else shift q top (q.consecutive_high + 1)

unfoldable pub deliver : NotificationQueue → Option (Notification × NotificationQueue)
unfolding top_level top_level_above deliver_from
deliver q = elim (top_level q) [
  | none ↦ none
  | some top ↦ deliver_from q top (top_level_above q top)
]

unfoldable pub drain_for : ℕ → NotificationQueue → List Notification
unfolding deliver
drain_for zero q = []
drain_for (suc fuel) q = elim (deliver q) [ none ↦ [] | some (n, rest) ↦ n ∷ drain_for fuel rest ]

-- The loop ends when nothing waits: each round takes one notification.
unfoldable pub drain : NotificationQueue → List Notification
unfolding drain_for size
drain q = drain_for (size q) q
