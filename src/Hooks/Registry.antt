-- ===== src/Hooks/Registry.antt =====
-- packages/hooks/src/registry.ts: the registry of the hooks, and which of them run and in what order.
pub mod Order
pub mod Buckets
pub mod Removal
use qwen_harness.Prelude.{
  ℕ, zero, suc, ◌+◌, Bool, true, false, not, ◌&&◌, ◌||◌, List, [], ◌∷◌, ◌++◌, map, Option, none,
  some, Text, text_eq, str, starts_with, includes, keep, any, ltb, leb, ◌==◌, if◌then◌else◌,
}
use qwen_harness.Policy.Paths.Glob.{Part, test}
use qwen_harness.Hooks.Outcome.{HookEvent}
use qwen_harness.Hooks.Registration.{
  HookInvocation, HookMatcher, HookRegistration, ℤ, ltb_int, priority_of,
}

-- What one round of the loop of `globToRegExp` adds at a `*`, and by how much more than one `i` grows.
abbrev at_star : Text → Part × ℕ
at_star rest =
    if starts_with rest (str "*")
    then if starts_with rest (str "*/") then (Part.dot_star, 2) else (Part.dot_star, 1)
    else (Part.segment, 0)

abbrev at_char : ℕ → Text → Part × ℕ
at_char c rest =
    if c == b'*'
    then at_star rest
    else if c == b'?'
    then (Part.segment_char, 0)
    else (Part.lit c, 0)

-- The parts of the expression, from its `^` to its `$`.
unfoldable pub glob_to_reg_exp : ℕ → Text → List Part
glob_to_reg_exp skip [] = []
glob_to_reg_exp (suc skip) (c ∷ rest) = glob_to_reg_exp skip rest
glob_to_reg_exp zero (c ∷ rest) =
    let (part, skip) = at_char c rest in part ∷ glob_to_reg_exp skip rest

abbrev glob_test : Text → Text → Bool
glob_test glob value = test (glob_to_reg_exp 0 glob) value

abbrev tool_applies : Option Text → Option Text → Bool
tool_applies none tool = true
tool_applies (some glob) none = false
tool_applies (some glob) (some tool) = glob_test glob tool

-- `invocation.paths ?? []`
abbrev paths_of : Option (List Text) → List Text
paths_of none = []
paths_of (some paths) = paths

abbrev path_applies : Option Text → Option (List Text) → Bool
path_applies none paths = true
path_applies (some glob) paths = any (glob_test glob) (paths_of paths)

abbrev condition_applies : Option (HookInvocation → Bool) → HookInvocation → Bool
condition_applies none invocation = true
condition_applies (some condition) invocation = condition invocation

unfoldable pub matcher_applies : Option HookMatcher → HookInvocation → Bool
unfolding glob_to_reg_exp
matcher_applies none invocation = true
matcher_applies (some m) invocation =
    tool_applies m.tool_name invocation.tool_name
    && path_applies m.path_glob invocation.paths
    && condition_applies m.condition invocation

pub record StoredHook : Type 0 where
  pub registration : HookRegistration
  pub seq : ℕ

-- The map of the buckets is a function here, with `[]` for an event that has none.
pub record HookRegistry : Type 0 where
  pub by_event : HookEvent → List StoredHook
  pub ids : List Text
  pub seq : ℕ

abbrev pub new_registry : HookRegistry
new_registry = record { by_event = λ e. []; ids = []; seq = 0 }

-- The place of an event in `HOOK_EVENTS`.
unfoldable pub event_index : HookEvent → ℕ
event_index HookEvent.pre_tool_use = 0
event_index HookEvent.post_tool_use = 1
event_index HookEvent.post_tool_use_failure = 2
event_index HookEvent.session_start = 3
event_index HookEvent.session_end = 4
event_index HookEvent.stop = 5
event_index HookEvent.stop_failure = 6
event_index HookEvent.setup = 7
event_index HookEvent.user_prompt_submit = 8
event_index HookEvent.notification = 9
event_index HookEvent.permission_request = 10
event_index HookEvent.permission_denied = 11
event_index HookEvent.subagent_start = 12
event_index HookEvent.subagent_stop = 13
event_index HookEvent.pre_compact = 14
event_index HookEvent.post_compact = 15
event_index HookEvent.teammate_idle = 16
event_index HookEvent.task_created = 17
event_index HookEvent.task_completed = 18
event_index HookEvent.elicitation = 19
event_index HookEvent.elicitation_result = 20
event_index HookEvent.config_change = 21
event_index HookEvent.worktree_create = 22
event_index HookEvent.worktree_remove = 23
event_index HookEvent.instructions_loaded = 24
event_index HookEvent.cwd_changed = 25
event_index HookEvent.file_changed = 26
event_index HookEvent.user_prompt_expansion = 27
event_index HookEvent.message_display = 28
event_index HookEvent.post_tool_batch = 29

-- The keys of the map compared.
abbrev pub same_event : HookEvent → HookEvent → Bool
same_event a b = event_index a == event_index b

-- `none` is the error that is thrown for an id that is taken. An event is one of the known ones here.
unfoldable pub register : HookRegistry → HookRegistration → Option HookRegistry
unfolding text_eq event_index
register g r =
    if includes g.ids r.id
    then none
    else some (record {
      by_event = λ e.
          if same_event e r.event
          then g.by_event e ++ record { registration = r; seq = g.seq } ∷ []
          else g.by_event e;
      ids = r.id ∷ g.ids;
      seq = g.seq + 1;
    })

-- `registration.id !== id`
abbrev pub other : Text → StoredHook → Bool
other id h = not (text_eq id h.registration.id)

unfoldable pub unregister : HookRegistry → Text → Bool × HookRegistry
unfolding text_eq
unregister g id =
    if includes g.ids id
    then (
      true,
      record g {
        by_event = λ e. keep (other id) (g.by_event e);
        ids = keep (λ i. not (text_eq id i)) g.ids;
      },
    )
    else (false, g)

-- Whether the comparison of the sort leaves the first hook in front of the second.
unfoldable pub runs_before : StoredHook → StoredHook → Bool
unfolding ltb_int
runs_before a b =
    let pa = priority_of a.registration in
    let pb = priority_of b.registration in
    if ltb_int pa pb then true else if ltb_int pb pa then false else leb a.seq b.seq

-- The sort of the platform, as the insertion of each hook where the comparison wants it.
unfoldable pub insert_hook : StoredHook → List StoredHook → List StoredHook
unfolding runs_before
insert_hook x [] = x ∷ []
insert_hook x (y ∷ ys) =
    let rest = insert_hook x ys in if runs_before x y then x ∷ y ∷ ys else y ∷ rest

unfoldable pub sort_hooks : List StoredHook → List StoredHook
unfolding insert_hook
sort_hooks [] = []
sort_hooks (x ∷ xs) = insert_hook x (sort_hooks xs)

unfoldable pub ordered : List StoredHook → List HookRegistration
unfolding sort_hooks
ordered stored = map (λ h. h.registration) (sort_hooks stored)

unfoldable pub for_event : HookRegistry → HookEvent → List HookRegistration
unfolding ordered
for_event g event = ordered (g.by_event event)

abbrev pub applicable : HookInvocation → StoredHook → Bool
applicable invocation h = matcher_applies h.registration.matcher invocation

unfoldable pub matching : HookRegistry → HookInvocation → List HookRegistration
unfolding ordered matcher_applies
matching g invocation = ordered (keep (applicable invocation) (g.by_event invocation.event))
