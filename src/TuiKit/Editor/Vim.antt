-- ===== src/TuiKit/Editor/Vim.antt =====
-- packages/tui-kit/src/editor.ts: the keys of Vim's normal mode.
use qwen_harness.Prelude.{
  Bool, true, false, not, List, [], ◌∷◌, Text, text_eq, str, if◌then◌else◌, Option, none, some,
}
use qwen_harness.TuiKit.Unicode.{Unicode}
use qwen_harness.TuiKit.Editor.State.{EditorState, VimMode, insert, normal}
use qwen_harness.TuiKit.Editor.Edits.{delete_forward, delete_selection, newline}
use qwen_harness.TuiKit.Editor.Motions.{
  move_left, move_right, move_up, move_down, move_word_left, move_word_right, move_line_start,
  move_line_end,
}

unfoldable pub set_mode : EditorState → VimMode → EditorState
set_mode s mode = record s { vim_mode = mode }

-- The keys that the switch knows.
pub data VimCommand : Type 0 where
  key_h key_l key_j key_k key_w key_b key_0 key_dollar key_x key_D key_i key_a key_A key_o :
      VimCommand

keys : List (VimCommand × Text)
keys =
    (key_h, str "h")
    ∷ (key_l, str "l")
    ∷ (key_j, str "j")
    ∷ (key_k, str "k")
    ∷ (key_w, str "w")
    ∷ (key_b, str "b")
    ∷ (key_0, str "0")
    ∷ (key_dollar, str "$")
    ∷ (key_x, str "x")
    ∷ (key_D, str "D")
    ∷ (key_i, str "i")
    ∷ (key_a, str "a")
    ∷ (key_A, str "A")
    ∷ (key_o, str "o")
    ∷ []

find_key : Text → List (VimCommand × Text) → Option VimCommand
find_key key [] = none
find_key key ((command, name) ∷ rest) = if text_eq key name then some command else find_key key rest

unfoldable pub command_of : Text → Option VimCommand
unfolding keys find_key
command_of key = find_key key keys

abbrev pub is_normal : VimMode → Bool
is_normal normal = true
is_normal insert = false

module _ (unicode : Unicode) where
  unfoldable pub vim_command : EditorState → Option VimCommand → EditorState
  unfolding set_mode
  vim_command s none = s
  vim_command s (some key_h) = move_left unicode s false
  vim_command s (some key_l) = move_right unicode s false
  vim_command s (some key_j) = move_down unicode s false
  vim_command s (some key_k) = move_up unicode s false
  vim_command s (some key_w) = move_word_right unicode s false
  vim_command s (some key_b) = move_word_left unicode s false
  vim_command s (some key_0) = move_line_start s false
  vim_command s (some key_dollar) = move_line_end unicode s false
  vim_command s (some key_x) = delete_forward unicode s
  vim_command s (some key_D) = delete_selection unicode (move_line_end unicode s true)
  vim_command s (some key_i) = set_mode s insert
  vim_command s (some key_a) = set_mode (move_right unicode s false) insert
  vim_command s (some key_A) = set_mode (move_line_end unicode s false) insert
  vim_command s (some key_o) = set_mode (newline unicode (move_line_end unicode s false)) insert

  unfoldable pub vim_key : EditorState → Text → EditorState
  unfolding vim_command command_of
  vim_key s key =
      if not s.config.vim
      then s
      else if text_eq key (str "Escape")
      then set_mode s normal
      else if not (is_normal s.vim_mode)
      then s
      else vim_command s (command_of key)
