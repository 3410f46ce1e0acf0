-- ===== src/App/Output.antt =====
-- `on_session_event` of crates/tiny-ssh-cli/src/app.rs: the events of the session driver, the OSC
-- events that the terminal has found in the output, and the prompt heuristic.
use tiny_ssh.Base.{
  ℕ, Bool, true, false, not, ◌||◌, none, some, List, [], ◌∷◌, ltb, ◌==◌, if◌then◌else◌, Bytes,
}
use tiny_ssh.Osc.{OscEvent, prompt_start, prompt_end, command_start, command_end, cwd}
use tiny_ssh.Session.{
  SessionEvent, state_changed, output, stderr, exit_status, error, driver_closed,
}
use tiny_ssh.Terminal
use tiny_ssh.Terminal.{Vt}
use tiny_ssh.App.{App}

-- `bytes.contains(&b)`.
unfoldable pub contains : ℕ → Bytes → Bool
contains b [] = false
contains b (c ∷ cs) = c == b || contains b cs

module _ (vt : Vt) where
  unfoldable pub on_osc_event : App vt → OscEvent → App vt
  on_osc_event app prompt_start = app
  on_osc_event app prompt_end = record app {
    prompt_pos = some (Terminal.cursor vt app.terminal);
    shadow = record (app.shadow) { shadow_input = []; shadow_cursor = 0; suggestion = none };
  }
  on_osc_event app command_start = record app { prompt_pos = none }
  on_osc_event app command_end = app
  on_osc_event app (cwd p) = record app { cwd = some p }

  unfoldable pub on_osc_events : App vt → List OscEvent → App vt
  on_osc_events app [] = app
  on_osc_events app (e ∷ es) = on_osc_events (on_osc_event app e) es

  -- Behind the two guards.
  guess_prompt : App vt → ℕ × ℕ → App vt
  guess_prompt app (col, row) = record app {
    prompt_pos = if ltb 0 col then some (col, row) else app.prompt_pos;
    shadow = record (app.shadow) { last_input_was_enter = false };
  }

  unfoldable pub handle_prompt_heuristic : App vt → Bytes → App vt
  unfolding guess_prompt
  handle_prompt_heuristic app bytes =
      if not app.last_input_was_enter
      then app
      else if not (contains b'\n' bytes)
      then app
      else guess_prompt app (Terminal.cursor vt app.terminal)

  -- `Output` and `Stderr`: feed, drain the OSC events, guess a prompt.
  unfoldable pub on_output : App vt → Bytes → App vt
  on_output app bytes =
      let (pending, terminal) = Terminal.take_osc_events vt (Terminal.feed vt app.terminal bytes) in
      handle_prompt_heuristic (on_osc_events (record app { terminal = terminal }) pending) bytes

  unfoldable pub on_session_event : App vt → SessionEvent → App vt
  on_session_event app (state_changed s) = record app { state = s }
  on_session_event app (output bytes) = on_output app bytes
  on_session_event app (stderr bytes) = on_output app bytes
  on_session_event app (exit_status s) = app
  on_session_event app (error msg) = record app { last_error = some msg }
  on_session_event app driver_closed = record app { closed = true }

  unfoldable pub on_resize : App vt → ℕ → ℕ → App vt
  on_resize app cols rows = record app { terminal = Terminal.resize vt app.terminal cols rows }
