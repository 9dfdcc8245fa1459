-- ===== src/TuiKit/Editor/Validity/Actions.antt =====
-- packages/tui-kit/src/editor.ts: sessions, sequences of operations of any kind from a new editor.
use qwen_harness.Prelude.{
  ℕ, suc, ◌-◌, Bool, true, false, not, List, [], ◌∷◌, Option, none, some, Text, refl, arith, length,
  is_empty, ltb, Bool-cases, inl, inr, text_eq, str, if_both,
}
use qwen_harness.Prelude.Texts.Splits.{one_le-split}
use qwen_harness.TuiKit.Unicode.{Unicode}
use qwen_harness.TuiKit.Editor.State.{
  EditorConfig, EditorState, normal, nl, create_editor, with_history,
}
use qwen_harness.TuiKit.Editor.Edits.{
  insert_text, paste, newline, backspace, delete_forward, delete_selection, clear_selection,
  copy_selection, cut, paste_register, undo, redo,
}
use qwen_harness.TuiKit.Editor.Motions.{
  move_left, move_right, move_up, move_down, move_line_start, move_line_end, move_buffer_start,
  move_buffer_end, move_word_left, move_word_right,
}
use qwen_harness.TuiKit.Editor.History.{
  load_buffer, prev_from, next_from, history_prev, history_next, submit,
}
use qwen_harness.TuiKit.Editor.Vim.{
  VimCommand, set_mode, vim_command, command_of, is_normal, vim_key,
}
use qwen_harness.TuiKit.Editor.Validity.{IsSound, IsValid}
use qwen_harness.TuiKit.Editor.Validity.Edits.{
  insert_text-IsValid, backspace-IsValid, delete_forward-IsValid, delete_selection-IsValid,
  clear_selection-IsValid, copy_selection-IsValid, cut-IsValid, undo-IsValid, redo-IsValid,
  same-IsValid,
}
use qwen_harness.TuiKit.Editor.Validity.Motions.{
  move_left-IsValid, move_right-IsValid, move_up-IsValid, move_down-IsValid, move_line_end-IsValid,
  move_buffer_end-IsValid, move_word_right-IsValid, move_word_left-IsValid, move_line_start-IsValid,
  move_buffer_start-IsValid,
}

pub data Motion : Type 0 where
  left right up down line_start line_end buffer_start buffer_end word_left word_right : Motion

-- The exported operations that give a new state.
pub data EditorAction : Type 0 where
  typed pasted : (text : Text) → EditorAction
  new_line back_space forward drop_selection copy cut_out paste_yanked unselect : EditorAction
  undo_last redo_next older newer submit_now : EditorAction
  motion : (target : Motion) (select : Bool) → EditorAction
  seeded : (entries : List Text) → EditorAction
  vim : (key : Text) → EditorAction

module _ (unicode : Unicode) where
  move : EditorState → Motion → Bool → EditorState
  move s left select = move_left unicode s select
  move s right select = move_right unicode s select
  move s up select = move_up unicode s select
  move s down select = move_down unicode s select
  move s line_start select = move_line_start s select
  move s line_end select = move_line_end unicode s select
  move s buffer_start select = move_buffer_start s select
  move s buffer_end select = move_buffer_end unicode s select
  move s word_left select = move_word_left unicode s select
  move s word_right select = move_word_right unicode s select

  unfoldable pub act : EditorState → EditorAction → EditorState
  unfolding move
  act s (typed text) = insert_text unicode s text
  act s (pasted text) = paste unicode s text
  act s new_line = newline unicode s
  act s back_space = backspace unicode s
  act s forward = delete_forward unicode s
  act s drop_selection = delete_selection unicode s
  act s copy = copy_selection unicode s
  act s cut_out = cut unicode s
  act s paste_yanked = paste_register unicode s
  act s unselect = clear_selection s
  act s undo_last = undo s
  act s redo_next = redo s
  act s older = history_prev unicode s
  act s newer = history_next unicode s
  act s submit_now = (submit s).0
  act s (motion target select) = move s target select
  act s (seeded entries) = with_history s entries
  act s (vim key) = vim_key unicode s key

  unfoldable pub run_actions : List EditorAction → EditorState → EditorState
  unfolding act
  run_actions [] s = s
  run_actions (a ∷ actions) s = run_actions actions (act s a)

  load_buffer-IsValid :
      (s : EditorState) (text : Text) (index : Option ℕ) (draft : Option Text)
      → IsValid unicode s
      → IsValid unicode (load_buffer unicode s text index draft)
  unfolding load_buffer
  load_buffer-IsValid s text index draft v = record {
    sound = ((omega (arith, one_le-split text nl), omega arith), _);
    undo_sound = v.undo_sound;
    redo_sound = v.redo_sound;
    undo_bound = v.undo_bound;
    redo_bound = v.redo_bound;
  }

  history_prev-IsValid :
      (s : EditorState) → IsValid unicode s → IsValid unicode (history_prev unicode s)
  unfolding history_prev
  history_prev-IsValid s v = elim (Bool-cases (is_empty s.history)) [
    | inl e ↦ rw e v
    | inr e ↦ rw e (from s.history_index)
  ]
    where
      from : (index : Option ℕ) → IsValid unicode (prev_from unicode s index)
      from none = load_buffer-IsValid s _ _ _ v
      from (some i) = load_buffer-IsValid s _ _ _ v

  next_from-IsValid :
      (s : EditorState) (index : Option ℕ)
      → IsValid unicode s
      → IsValid unicode (next_from unicode s index)
  unfolding next_from
  next_from-IsValid s none v = v
  next_from-IsValid s (some i) v = elim (Bool-cases (ltb (length s.history - 1) (suc i))) [
    | inl e ↦ rw e (load_buffer-IsValid s _ none none v)
    | inr e ↦ rw e (load_buffer-IsValid s _ (some (suc i)) s.draft v)
  ]

  empty-IsSound :
      IsSound unicode
        (record { lines = [] ∷ []; cursor = record { row = 0; col = 0 }; anchor = none })
  empty-IsSound = ((omega arith, omega arith), _)

  submit-IsValid : (s : EditorState) → IsValid unicode s → IsValid unicode (submit s).0
  unfolding submit
  submit-IsValid s v = record {
    sound = empty-IsSound;
    undo_sound = _;
    redo_sound = _;
    undo_bound = omega arith;
    redo_bound = omega arith;
  }

  vim_command-IsValid :
      (s : EditorState) (command : Option VimCommand)
      → IsValid unicode s
      → IsValid unicode (vim_command unicode s command)
  unfolding vim_command set_mode newline
  vim_command-IsValid s none v = v
  vim_command-IsValid s (some VimCommand.key_h) v = move_left-IsValid unicode s v false
  vim_command-IsValid s (some VimCommand.key_l) v = move_right-IsValid unicode s v false
  vim_command-IsValid s (some VimCommand.key_j) v = move_down-IsValid unicode s v false
  vim_command-IsValid s (some VimCommand.key_k) v = move_up-IsValid unicode s v false
  vim_command-IsValid s (some VimCommand.key_w) v = move_word_right-IsValid unicode s v false
  vim_command-IsValid s (some VimCommand.key_b) v = move_word_left-IsValid unicode s v false
  vim_command-IsValid s (some VimCommand.key_0) v = move_line_start-IsValid unicode s v false
  vim_command-IsValid s (some VimCommand.key_dollar) v = move_line_end-IsValid unicode s v false
  vim_command-IsValid s (some VimCommand.key_x) v = delete_forward-IsValid unicode s v
  vim_command-IsValid s (some VimCommand.key_D) v =
      delete_selection-IsValid unicode _ (move_line_end-IsValid unicode s v true)
  vim_command-IsValid s (some VimCommand.key_i) v = same-IsValid unicode s _ v refl refl refl refl
  vim_command-IsValid s (some VimCommand.key_a) v =
      same-IsValid unicode _ _ (move_right-IsValid unicode s v false) refl refl refl refl
  vim_command-IsValid s (some VimCommand.key_A) v =
      same-IsValid unicode _ _ (move_line_end-IsValid unicode s v false) refl refl refl refl
  vim_command-IsValid s (some VimCommand.key_o) v =
      same-IsValid unicode _ _
        (insert_text-IsValid unicode _ (nl ∷ []) (move_line_end-IsValid unicode s v false)) refl
        refl refl refl

  vim_key-IsValid :
      (s : EditorState) (key : Text) → IsValid unicode s → IsValid unicode (vim_key unicode s key)
  unfolding vim_key set_mode
  vim_key-IsValid s key v = if_both (IsValid unicode) (not s.config.vim) v (
      if_both (IsValid unicode) (text_eq key (str "Escape"))
        (same-IsValid unicode s (set_mode s normal) v refl refl refl refl)
        (if_both (IsValid unicode) (not (is_normal s.vim_mode)) v
          (vim_command-IsValid s (command_of key) v)))

  move-IsValid :
      (s : EditorState) (target : Motion) (select : Bool)
      → IsValid unicode s
      → IsValid unicode (move s target select)
  unfolding move
  move-IsValid s left select v = move_left-IsValid unicode s v select
  move-IsValid s right select v = move_right-IsValid unicode s v select
  move-IsValid s up select v = move_up-IsValid unicode s v select
  move-IsValid s down select v = move_down-IsValid unicode s v select
  move-IsValid s line_start select v = move_line_start-IsValid unicode s v select
  move-IsValid s line_end select v = move_line_end-IsValid unicode s v select
  move-IsValid s buffer_start select v = move_buffer_start-IsValid unicode s v select
  move-IsValid s buffer_end select v = move_buffer_end-IsValid unicode s v select
  move-IsValid s word_left select v = move_word_left-IsValid unicode s v select
  move-IsValid s word_right select v = move_word_right-IsValid unicode s v select

  act-IsValid : (s : EditorState) (a : EditorAction) → IsValid unicode s → IsValid unicode (act s a)
  unfolding act paste newline paste_register history_next with_history
  act-IsValid s (typed text) v = insert_text-IsValid unicode s text v
  act-IsValid s (pasted text) v = insert_text-IsValid unicode s text v
  act-IsValid s new_line v = insert_text-IsValid unicode s (nl ∷ []) v
  act-IsValid s back_space v = backspace-IsValid unicode s v
  act-IsValid s forward v = delete_forward-IsValid unicode s v
  act-IsValid s drop_selection v = delete_selection-IsValid unicode s v
  act-IsValid s copy v = copy_selection-IsValid unicode s v
  act-IsValid s cut_out v = cut-IsValid unicode s v
  act-IsValid s paste_yanked v = insert_text-IsValid unicode s s.register v
  act-IsValid s unselect v = clear_selection-IsValid unicode s v
  act-IsValid s undo_last v = undo-IsValid unicode s v
  act-IsValid s redo_next v = redo-IsValid unicode s v
  act-IsValid s older v = history_prev-IsValid s v
  act-IsValid s newer v = next_from-IsValid s s.history_index v
  act-IsValid s submit_now v = submit-IsValid s v
  act-IsValid s (motion target select) v = move-IsValid s target select v
  act-IsValid s (seeded entries) v =
      same-IsValid unicode s (with_history s entries) v refl refl refl refl
  act-IsValid s (vim key) v = vim_key-IsValid s key v

  run_actions_keep :
      (actions : List EditorAction) (s : EditorState)
      → IsValid unicode s
      → IsValid unicode (run_actions actions s)
  unfolding run_actions
  run_actions_keep [] s v = v
  run_actions_keep (a ∷ actions) s v = run_actions_keep actions (act s a) (act-IsValid s a v)

  -- After any sequence of operations from a new editor, the cursor and the anchor lie in the buffer,
  -- those of every snapshot on the two stacks lie in its lines, and both stacks keep the bound
  -- max_undo.
  pub run_actions-IsValid :
      (config : EditorConfig) (actions : List EditorAction)
      → IsValid unicode (run_actions actions (create_editor config))
  unfolding create_editor
  run_actions-IsValid config actions = run_actions_keep actions (create_editor config) (record {
    sound = empty-IsSound;
    undo_sound = _;
    redo_sound = _;
    undo_bound = omega arith;
    redo_bound = omega arith;
  })
