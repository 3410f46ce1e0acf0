-- ===== src/App.antt =====
-- `App` of crates/tiny-ssh-cli/src/app.rs: the state of the user interface. The fields that mirror
-- the remote command line stand together in `Shadow`. A panic is `none`.
pub mod Edit
pub mod Line
pub mod Word
pub mod Suggestion
pub mod Input
pub mod Output
pub mod Gate
pub mod Valid
pub mod Events
pub mod Recall
pub mod RecallTests
pub mod Editing
pub mod Shown
pub mod Refine
pub mod Remote
pub mod Rubout
pub mod Readline
pub mod InStep
pub mod Typing
pub mod Alike
pub mod Tests
use tiny_ssh.Base.{ℕ, Bool, true, false, Option, none, some, List, [], Bytes}
use tiny_ssh.Utf8.{Text}
use tiny_ssh.Session.{SessionState, connecting}
use tiny_ssh.Terminal
use tiny_ssh.Terminal.{Vt, Terminal}

pub data Action : Type 0 where
  send : Bytes → Action
  quit toggle_mouse_capture copy_to_clipboard nothing : Action

pub record Shadow : Type 0 where
  pub shadow_input : Text
  pub shadow_cursor : ℕ
  pub suggestion : Option Text
  pub last_action_was_suggestion : Bool
  pub last_input_was_enter : Bool

pub record App (vt : Vt) : Type 0 where
  pub host : Text
  pub user : Text
  pub state : SessionState
  pub terminal : Terminal vt
  pub closed : Bool
  pub last_error : Option Text
  pub shadow : Shadow
  pub open shadow use *
  pub prompt_pos : Option (ℕ × ℕ)
  pub cwd : Option Text
  pub mouse_capture : Bool
  pub mouse_capture_changed : Bool
  pub pending_clipboard : Option Text

abbrev pub new_shadow : Shadow
new_shadow = record {
  shadow_input = [];
  shadow_cursor = 0;
  suggestion = none;
  last_action_was_suggestion = false;
  last_input_was_enter = false;
}

unfoldable pub new : (vt : Vt) → Text → Text → ℕ → ℕ → App vt
new vt host user cols rows = record {
  host = host;
  user = user;
  state = connecting;
  terminal = Terminal.new vt cols rows;
  closed = false;
  last_error = none;
  shadow = new_shadow;
  prompt_pos = none;
  cwd = none;
  mouse_capture = true;
  mouse_capture_changed = false;
  pending_clipboard = none;
}
