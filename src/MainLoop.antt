-- ===== src/MainLoop.antt =====
-- `handle_terminal_event` and the parts of `drive` of crates/tiny-ssh-cli/src/main.rs: the events of
-- the user's terminal and of the session, and what is written to the terminal. base64 is a
-- parameter, and what a frame looks like is left out.
pub mod Safe
pub mod Delivery
pub mod Stays
pub mod Remote
pub mod RemoteTests
pub mod Screen
pub mod Directory
pub mod DirectoryTests
pub mod Drive
pub mod Tui
pub mod Setup
pub mod Kept
pub mod Capture
pub mod InSync
pub mod Mirror
pub mod Quiet
pub mod Reach
pub mod Stopping
pub mod Ends
pub mod Tests
use tiny_ssh.Base.{
  ℕ, Bool, true, false, not, Option, none, some, List, [], ◌∷◌, ◌++◌, ◌>>=◌, if◌then◌else◌, Bytes,
  codes, Result, ok, err, ℤ, pos, negsuc,
}
use tiny_ssh.Utf8.{Text, into_bytes}
use tiny_ssh.Keys.{
  KeyEvent, KeyEventKind, release, press, repeat, MouseEvent, MouseEventKind, scroll_up,
  scroll_down, encode_mouse,
}
use tiny_ssh.History.Database.{Sqlite}
use tiny_ssh.Terminal
use tiny_ssh.Terminal.{Vt}
use tiny_ssh.Session.{SessionEvent, driver_closed}
use tiny_ssh.Session.Handle
use tiny_ssh.Session.Handle.{Commands, SessionError, send_bytes, request_resize, request_disconnect}
use tiny_ssh.App
use tiny_ssh.App.{App, Action, send, quit, toggle_mouse_capture, copy_to_clipboard, nothing}
use tiny_ssh.App.Input.{on_key}
use tiny_ssh.App.Output.{on_session_event, on_resize}
use tiny_ssh.Target.{vt_dims}

-- `crossterm::event::Event`; `other_event` stands for the changes of focus.
pub data Event : Type 0 where
  key_event : KeyEvent → Event
  mouse_event : MouseEvent → Event
  paste : Text → Event
  resize_event : ℕ → ℕ → Event
  other_event : Event

-- What `select!` yields: an event or an error of the terminal, `None` at its end; an event of the
-- session, `None` at its end.
pub data Input : Type 0 where
  terminal_event : Option (Result Text Event) → Input
  session_event : Option SessionEvent → Input

-- What is written to the user's terminal.
pub data Output : Type 0 where
  capture_mouse : Bool → Output
  write : Bytes → Output
  draw : Output

abbrev pub paste_start : Bytes
paste_start = 0x1b ∷ codes "[200~"

abbrev pub paste_end : Bytes
paste_end = 0x1b ∷ codes "[201~"

module _ (vt : Vt) (db : Sqlite) (commands : Commands) where
  -- The application, the history and the session.
  pub record Main : Type 0 where
    pub app : App vt
    pub conn : db.Conn
    pub handle : commands.Handle

  -- `if let Err(e) = … { app.last_error = Some(e.to_string()); }`.
  unfoldable pub reported : Main → Result SessionError (commands.Handle) → Main
  reported m (ok h) = record m { handle = h }
  reported m (err e) = record m { app = record (m.app) { last_error = some (Handle.to_string e) } }

  -- `let _ = …`.
  unfoldable pub ignored : Main → Result SessionError (commands.Handle) → Main
  ignored m (ok h) = record m { handle = h }
  ignored m (err e) = m

  unfoldable pub on_action : Main → Action → Bool × Main
  on_action m (send bytes) = (false, reported m (send_bytes commands m.handle bytes))
  on_action m quit = (true, ignored m (request_disconnect commands m.handle))
  on_action m toggle_mouse_capture = (false, m)
  on_action m copy_to_clipboard = (false, m)
  on_action m nothing = (false, m)

  unfoldable pub on_key_event : Main → Option ℕ → KeyEvent → KeyEventKind → Option (Bool × Main)
  on_key_event m clock key release = some (false, m)
  on_key_event m clock key _ = on_key vt db m.app m.conn clock key >>= λ r.
      some (on_action (record m { app = r.0; conn = r.1 }) r.2)

  -- A report is sent if there is one.
  unfoldable pub send_report : Main → Bytes → Main
  send_report m [] = m
  send_report m (b ∷ bs) = reported m (send_bytes commands m.handle (b ∷ bs))

  unfoldable pub scrolled : Main → ℤ → Main
  scrolled m delta = record m {
    app = record (m.app) { terminal = Terminal.scroll_display vt m.app.terminal delta };
  }

  unfoldable pub on_mouse : Main → MouseEvent → MouseEventKind → Main
  on_mouse m mouse scroll_up =
      if not (Terminal.is_alt_screen vt m.app.terminal)
      then scrolled m (negsuc 2)
      else send_report m (encode_mouse mouse (Terminal.mode vt m.app.terminal))
  on_mouse m mouse scroll_down =
      if not (Terminal.is_alt_screen vt m.app.terminal)
      then scrolled m (pos 3)
      else send_report m (encode_mouse mouse (Terminal.mode vt m.app.terminal))
  on_mouse m mouse _ = send_report m (encode_mouse mouse (Terminal.mode vt m.app.terminal))

  unfoldable pub paste_bytes : Main → Text → Bytes
  paste_bytes m text =
      if (Terminal.mode vt m.app.terminal).bracketed_paste
      then paste_start ++ (into_bytes text ++ paste_end)
      else into_bytes text

  -- `resize` of the session, and then of the grid.
  unfoldable pub resized : Main → ℕ × ℕ → Main
  resized m (cols, rows) =
      let m' = ignored m (request_resize commands m.handle cols rows) in
      record m' { app = on_resize vt m'.app cols rows }

  -- Whether to exit, and what has changed; `None` is a panic.
  unfoldable pub handle_terminal_event : Main → Option ℕ → Event → Option (Bool × Main)
  handle_terminal_event m clock (key_event key) = on_key_event m clock key key.kind
  handle_terminal_event m clock (mouse_event mouse) = some (false, on_mouse m mouse mouse.kind)
  handle_terminal_event m clock (paste text) =
      some (false, reported m (send_bytes commands m.handle (paste_bytes m text)))
  handle_terminal_event m clock (resize_event cols rows) =
      some (false, resized m (vt_dims cols rows))
  handle_terminal_event m clock other_event = some (false, m)

  -- The top of the loop, up to the frame: the mouse capture and the clipboard.
  unfoldable pub sync_mouse : Main → Bool → List Output × Main × Bool
  sync_mouse m redraw =
      if m.app.mouse_capture_changed
      then (
        capture_mouse m.app.mouse_capture ∷ [],
        record m { app = record (m.app) { mouse_capture_changed = false } },
        true,
      )
      else ([], m, redraw)

  unfoldable pub sync_clipboard : (Text → Bytes) → Main → List Output × Main
  sync_clipboard base64 m = elim m.app.pending_clipboard [
    | none ↦ ([], m)
    | some text ↦ (
      write (0x1b ∷ (codes "]52;c;" ++ (base64 text ++ 0x07 ∷ []))) ∷ [],
      record m { app = record (m.app) { pending_clipboard = none } },
    )
  ]

  unfoldable pub before_select : (Text → Bytes) → Main → Bool → List Output × Main
  before_select base64 m redraw =
      let (mouse, m', redraw') = sync_mouse m redraw in
      let (clipboard, m'') = sync_clipboard base64 m' in
      (mouse ++ (clipboard ++ (if redraw' then draw ∷ [] else [])), m'')

  -- Behind `select!`: whether to return, whether to draw, and the new state.
  unfoldable pub on_input : Main → Option ℕ → Input → Option (Bool × Bool × Main)
  on_input m clock (terminal_event none) = some (true, false, m)
  on_input m clock (terminal_event (some (err e))) = some (false, false, m)
  on_input m clock (terminal_event (some (ok e))) =
      handle_terminal_event m clock e >>= λ r. some (r.0, not r.0, r.1)
  on_input m clock (session_event none) = some (true, false, m)
  on_input m clock (session_event (some driver_closed)) =
      some (true, true, record m { app = on_session_event vt m.app driver_closed })
  on_input m clock (session_event (some e)) =
      some (false, true, record m { app = on_session_event vt m.app e })
