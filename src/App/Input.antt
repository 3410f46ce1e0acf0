-- ===== src/App/Input.antt =====
-- `on_key` and `apply_to_shadow` of crates/tiny-ssh-cli/src/app.rs. The clock is the time that
-- `History::record` reads.
use tiny_ssh.Base.{
  ℕ, ◌+◌, ◌-◌, Bool, true, false, not, ◌&&◌, ◌||◌, Option, none, some, List, [], ◌∷◌, ◌++◌, ◌>>=◌,
  ltb, ◌==◌, if◌then◌else◌, length, ok, err, pos,
}
use tiny_ssh.Utf8.{Text, into_bytes}
use tiny_ssh.Keys.{
  KeyCode, char, enter, tab, back_tab, backspace, esc, home, end, insert, delete, page_up,
  page_down, f, other, KeyModifiers, KeyEvent, to_ascii_lowercase, encode,
}
use tiny_ssh.History.{HistoryEntry, suggest_history, user, record_entry}
use tiny_ssh.History.Database.{Sqlite}
use tiny_ssh.Terminal
use tiny_ssh.Terminal.{Vt}
use tiny_ssh.App.{Action, send, quit, toggle_mouse_capture, copy_to_clipboard, nothing, Shadow, App}
use tiny_ssh.App.Edit.{insert_char, backspace_char, kill_to_end, kill_word_backward}
use tiny_ssh.App.Suggestion.{Place, refresh_suggestion}

-- Ctrl-U, and with `clear_line` Ctrl-C, Ctrl-D and the keys of the history.
abbrev pub clear_input : Shadow → Shadow
clear_input s = record s {
  shadow_input = [];
  shadow_cursor = 0;
  last_action_was_suggestion = false;
}

abbrev pub clear_line : Shadow → Shadow
clear_line s = record s {
  shadow_input = [];
  shadow_cursor = 0;
  suggestion = none;
  last_action_was_suggestion = false;
  last_input_was_enter = false;
}

abbrev pub move_to : Shadow → ℕ → Shadow
move_to s cursor = record s { shadow_cursor = cursor }

-- The `match` on the lower-case character under Ctrl.
unfoldable pub ctrl_edit : ℕ → Shadow → Option Shadow
ctrl_edit c s =
    if c == b'a'
    then some (move_to s 0)
    else if c == b'e'
    then some (move_to s (length s.shadow_input))
    else if c == b'u'
    then some (clear_input s)
    else if c == b'k'
    then kill_to_end s
    else if c == b'w'
    then kill_word_backward s
    else if c == b'c' || c == b'd'
    then some (clear_line s)
    else some s

-- What `Enter` records.
unfoldable pub entry_of : Place → Shadow → HistoryEntry
entry_of place s = record {
  id = none;
  host = place.host;
  user = place.user;
  cwd = place.cwd;
  command = s.shadow_input;
  timestamp = pos 0;
  exit_code = none;
  duration_ms = none;
  source = if s.last_action_was_suggestion then suggest_history else user;
}

-- `Enter` after the record.
abbrev pub submit : Shadow → Shadow
submit s = record {
  shadow_input = [];
  shadow_cursor = 0;
  suggestion = none;
  last_action_was_suggestion = false;
  last_input_was_enter = true;
}

abbrev pub drop_suggestion : Shadow → Shadow
drop_suggestion s = record s { suggestion = none }

module _ (db : Sqlite) where
  open db use {Conn}

  -- `let _ = history.record(…)`: a failure is ignored. `None` is an empty line.
  unfoldable pub record_command : Conn → Option ℕ → Place → Shadow → Text → Conn
  record_command conn clock place s [] = conn
  record_command conn clock place s (_ ∷ _) = elim (record_entry db conn clock (entry_of place s)) [
    | ok (conn', id) ↦ conn'
    | err e ↦ conn
  ]

  unfoldable pub refreshed : Place → Conn → Option Shadow → Option (Shadow × Conn)
  refreshed place conn edit = do s ← edit; s' ← refresh_suggestion db conn place s; some (s', conn)

  -- The `match key.code` of `apply_to_shadow`.
  unfoldable pub apply_code :
      Place → Option ℕ → Bool → KeyCode → Shadow → Conn → Option (Shadow × Conn)
  apply_code place clock ctrl (char c) s conn =
      refreshed place conn (if ctrl then ctrl_edit (to_ascii_lowercase c) s else insert_char c s)
  apply_code place clock ctrl backspace s conn = refreshed place conn (backspace_char s)
  apply_code place clock ctrl enter s conn =
      some (submit s, record_command conn clock place s s.shadow_input)
  apply_code place clock ctrl tab s conn = some (drop_suggestion s, conn)
  apply_code place clock ctrl back_tab s conn = some (drop_suggestion s, conn)
  apply_code place clock ctrl KeyCode.up s conn = some (clear_line s, conn)
  apply_code place clock ctrl KeyCode.down s conn = some (clear_line s, conn)
  apply_code place clock ctrl page_up s conn = some (clear_line s, conn)
  apply_code place clock ctrl page_down s conn = some (clear_line s, conn)
  apply_code place clock ctrl KeyCode.left s conn =
      some (if ltb 0 s.shadow_cursor then move_to s (s.shadow_cursor - 1) else s, conn)
  apply_code place clock ctrl KeyCode.right s conn = some (
    if ltb s.shadow_cursor (length s.shadow_input) then move_to s (s.shadow_cursor + 1) else s,
    conn,
  )
  apply_code place clock ctrl home s conn = some (move_to s 0, conn)
  apply_code place clock ctrl end s conn = some (move_to s (length s.shadow_input), conn)
  apply_code place clock ctrl esc s conn = some (s, conn)
  apply_code place clock ctrl insert s conn = some (s, conn)
  apply_code place clock ctrl delete s conn = some (s, conn)
  apply_code place clock ctrl (f n) s conn = some (s, conn)
  apply_code place clock ctrl other s conn = some (s, conn)

  unfoldable pub apply_to_shadow :
      Place → Option ℕ → KeyEvent → Shadow → Conn → Option (Shadow × Conn)
  apply_to_shadow place clock key = apply_code place clock key.modifiers.control key.code

abbrev pub is_char : KeyCode → ℕ → Bool
is_char (char c) d = c == d
is_char _ d = false

abbrev pub is_right : KeyCode → Bool
is_right KeyCode.right = true
is_right _ = false

-- `KeyModifiers::is_empty`.
abbrev pub is_empty : KeyModifiers → Bool
is_empty m = not (m.shift || m.control || m.alt || m.extra)

-- `lines.join("\n")`.
unfoldable pub join_lines : List Text → Text
join_lines [] = []
join_lines (l ∷ []) = l
join_lines (l ∷ m ∷ ls) = l ++ (b'\n' ∷ join_lines (m ∷ ls))

-- The suggestion that a key accepts.
unfoldable pub accepted : KeyEvent → Shadow → Option Text
accepted key s =
    if is_right key.code && is_empty key.modifiers && s.shadow_cursor == length s.shadow_input
    then s.suggestion
    else none

-- The buffer behind `push_str`.
abbrev pub push_suggestion : Shadow → Text → Shadow
push_suggestion s rest = record s {
  shadow_input = s.shadow_input ++ rest;
  shadow_cursor = length (s.shadow_input ++ rest);
  suggestion = none;
  last_action_was_suggestion = true;
}

module _ (vt : Vt) (db : Sqlite) where
  open db use {Conn}

  abbrev pub place_of : App vt → Place
  place_of app = record { host = app.host; user = app.user; cwd = app.cwd }

  -- A key that is accepted locally.
  unfoldable pub accept : App vt → Conn → Text → Option (App vt × Conn × Action)
  accept app conn rest = do
    s ← refresh_suggestion db conn (place_of app) (push_suggestion app.shadow rest)
    some (record app { shadow = s }, conn, send (into_bytes rest))

  -- The end of `on_key`: the encoded key, and the shadow in lockstep.
  unfoldable pub forward : App vt → Conn → Option ℕ → KeyEvent → Option (App vt × Conn × Action)
  forward app conn clock key =
      let bytes = encode key (Terminal.mode vt app.terminal) in
      elim bytes [
        | [] ↦ some (app, conn, nothing)
        | b ∷ bs ↦ apply_to_shadow db (place_of app) clock key app.shadow conn >>= λ r.
            some (record app { shadow = r.0 }, r.1, send (b ∷ bs))
      ]

  unfoldable pub on_key : App vt → Conn → Option ℕ → KeyEvent → Option (App vt × Conn × Action)
  on_key app conn clock key =
      if key.modifiers.control && is_char key.code b'q'
      then some (app, conn, quit)
      else if (key.modifiers.control && key.modifiers.shift)
          && (is_char key.code b'm' || is_char key.code b'M')
      then some (
        record app { mouse_capture = not app.mouse_capture; mouse_capture_changed = true },
        conn,
        toggle_mouse_capture,
      )
      else if (key.modifiers.control && key.modifiers.shift)
          && (is_char key.code b'c' || is_char key.code b'C')
      then some (
        record app { pending_clipboard = some (join_lines (Terminal.screen_text vt app.terminal)) },
        conn,
        copy_to_clipboard,
      )
      else elim (accepted key app.shadow) [
        | some rest ↦ accept app conn rest
        | none ↦ forward app conn clock key
      ]
