-- ===== src/App/Tests.antt =====
-- The user interface over a terminal that only counts what it prints, and a history in memory.
use tiny_ssh.Base.{
  ℕ, ◌+◌, ◌≡◌, ◌↔◌, refl, Bool, true, false, none, some, [], codes, arith, pos, length, inl, List,
  ◌∷◌, Option, Bytes,
}
use tiny_ssh.Keys.{KeyCode, char, KeyModifiers, KeyEvent, press, backspace, encode}
use tiny_ssh.Osc.{default}
use tiny_ssh.History.Memory.{memory}
use tiny_ssh.Terminal.{Vt}
use tiny_ssh.Session.{shell_open}
use tiny_ssh.App.{App, Shadow}
use tiny_ssh.App.Suggestion.{Place, Refreshed, refresh_suggestion, refresh_suggestion-Refreshed}
use tiny_ssh.App.Input.{apply_code, on_key}
use tiny_ssh.App.Editing.{Line, line, edited}
use tiny_ssh.App.Refine.{Yields, apply_code-Yields}
use tiny_ssh.App.Valid.{IsValid, Answers, on_key-Answers}
use tiny_ssh.Keys.{enter, delete, TermMode}
use tiny_ssh.App.Readline.{Reader, reader, ready, readline, readline-ReadlineLaws}
use tiny_ssh.App.InStep.{IsAlike}
use tiny_ssh.App.Alike.{apply_code_iff}
use tiny_ssh.App.Shown.{Shows}
use tiny_ssh.App.Typing.{InStep, AllFollowed, type_keys, type_keys-InStep}
use tiny_ssh.App.Gate.{can_show_suggestion, Showable, can_show_suggestion_iff}

-- A terminal by the bytes it has printed, and whether it shows the alternate screen.
abbrev pub counter : Vt
counter = record {
  Term = ℕ × Bool;
  Processor = Unit {0};
  new_term = λ cols rows. (0, false);
  new_processor = tt;
  advance = λ p t bytes. (tt, (t.0 + length bytes, t.1));
  resize_term = λ t cols rows. t;
  cursor_point = λ t. (t.0, pos 0);
  term_mode = λ t. record {
    app_cursor = false;
    sgr_mouse = true;
    alt_screen = t.1;
    bracketed_paste = false;
  };
  scroll = λ t lines. t;
  display_iter = λ t. [];
}

abbrev pub typed : Shadow
typed = record {
  shadow_input = codes "git";
  shadow_cursor = 2;
  suggestion = some (codes " status");
  last_action_was_suggestion = false;
  last_input_was_enter = false;
}

pub typed-IsValid : IsValid typed
typed-IsValid = record { cursor-le-length = omega arith; is_proper = λ g q n. cc }

abbrev pub app : App counter
app = record {
  host = codes "h";
  user = codes "u";
  state = shell_open;
  terminal = record { inner = (5, false); parser = tt; osc_scanner = default; pending_osc = [] };
  closed = false;
  last_error = none;
  shadow = typed;
  prompt_pos = some (2, 0);
  cwd = none;
  mouse_capture = true;
  mouse_capture_changed = false;
  pending_clipboard = none;
}

abbrev no_mods : KeyModifiers
no_mods = record { shift = false; control = false; alt = false; extra = false }

abbrev pub key : KeyCode → KeyEvent
key c = record { code = c; modifiers = no_mods; kind = press }

abbrev place : Place
place = record { host = codes "h"; user = codes "u"; cwd = none }

on_key-Answers_example :
    Answers counter memory app []
      (key (char b'x'))
      (on_key counter memory app [] (some 1) (key (char b'x')))
on_key-Answers_example =
    on_key-Answers counter memory app [] (some 1) (key (char b'x')) typed-IsValid

abbrev typed_line : Line
typed_line = line (codes "gi") (codes "t")

apply_code-Yields_example :
    Yields memory place
      (some 1)
      (apply_code memory place (some 1) false backspace typed [])
      (edited false backspace typed_line)
apply_code-Yields_example =
    apply_code-Yields memory place (some 1) false backspace typed [] typed_line
      (record { input_is = refl; cursor_is = refl }) (λ g q n. cc)

refresh_suggestion-Refreshed_example :
    (s : Shadow) × (refresh_suggestion memory [] place typed ≡ some s)
    × Refreshed memory [] place typed s
refresh_suggestion-Refreshed_example = refresh_suggestion-Refreshed memory [] place typed

can_show_suggestion_iff_example : (can_show_suggestion counter app ≡ true) ↔ Showable counter app
can_show_suggestion_iff_example = can_show_suggestion_iff counter app

abbrev remote : Reader
remote = reader ready typed_line

abbrev plain_mode : TermMode
plain_mode = record {
  app_cursor = false;
  sgr_mouse = false;
  alt_screen = false;
  bracketed_paste = false;
}

-- Delete takes a character of the remote line, and leaves the shadow buffer as it is.
apply_code_iff_example :
    (shadow' : Shadow) × (conn' : memory.Conn) × (apply_code memory place
        (some 1)
        false
        delete
        typed
        []
      ≡ some (shadow', conn'))
    × readline.IsReady (readline.read remote (encode (key delete) plain_mode))
    × (Shows shadow' (readline.shows (readline.read remote (encode (key delete) plain_mode)))
        ↔ IsAlike delete false typed_line)
apply_code_iff_example =
    apply_code_iff readline readline-ReadlineLaws memory place (some 1) typed [] remote (key delete)
      plain_mode (λ g q n. cc) refl (record { input_is = refl; cursor_is = refl }) tt tt

abbrev keys : List (Option ℕ × KeyEvent)
keys =
    (some 1, key (char b'x'))
    ∷ (some 2, key KeyCode.left)
    ∷ (some 3, key backspace)
    ∷ (some 4, key enter)
    ∷ []

keys-AllFollowed : AllFollowed counter memory app [] keys
keys-AllFollowed = (
  ((omega arith, (λ e. omega arith), (omega arith, inl (omega arith))), tt, tt, (λ rest q. cc)),
  λ _ _ _ _. (
    (tt, tt, tt, (λ rest q. cc)),
    λ _ _ _ _.
        ((tt, tt, tt, (λ rest q. cc)), λ _ _ _ _. ((tt, tt, tt, (λ rest q. cc)), λ _ _ _ _. tt)),
  ),
)

type_keys-InStep_example :
    (app' : App counter) × (conn' : memory.Conn) × (bytes : Bytes) × (type_keys counter memory app
        [] keys
      ≡ some (app', conn', bytes))
    × InStep readline app'.shadow (readline.read remote bytes)
    × IsValid app'.shadow
type_keys-InStep_example =
    type_keys-InStep readline readline-ReadlineLaws counter memory keys app [] remote typed-IsValid
      (refl, record { input_is = refl; cursor_is = refl }) keys-AllFollowed
