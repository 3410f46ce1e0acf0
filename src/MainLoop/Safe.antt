-- ===== src/MainLoop/Safe.antt =====
-- The main loop of crates/tiny-ssh-cli/src/main.rs keeps the shadow buffer valid, so that its string
-- operations do not panic.
use tiny_ssh.Base.{
  ◌≡◌, refl, ◌>>=◌, ℕ, Bool, false, Option, none, some, [], ◌∷◌, ok, err, Bytes, Result, Bool-cases,
  Option-cases, inl, inr, not,
}
use tiny_ssh.Utf8.{Text}
use tiny_ssh.Keys.{
  KeyEvent, KeyEventKind, release, MouseEvent, MouseEventKind, scroll_up, scroll_down,
}
use tiny_ssh.History.Database.{Sqlite}
use tiny_ssh.Terminal
use tiny_ssh.Terminal.{Vt, Terminal}
use tiny_ssh.Session.Handle.{Commands, SessionError, request_resize}
use tiny_ssh.Session.{SessionEvent, driver_closed}
use tiny_ssh.App.{App, Action, send, quit, toggle_mouse_capture, copy_to_clipboard, nothing}
use tiny_ssh.App.Input.{on_key}
use tiny_ssh.App.Output
use tiny_ssh.App.Output.{on_session_event}
use tiny_ssh.App.Valid.{IsValid, on_key-Answers}
use tiny_ssh.App.Events.{on_session_event-IsValid}
use tiny_ssh.Target.{vt_dims}
use tiny_ssh.MainLoop
use tiny_ssh.MainLoop.{
  Event, key_event, mouse_event, paste, resize_event, other_event, Input, terminal_event,
  session_event, Output, Main, before_select, on_input,
}

module _ (vt : Vt) (db : Sqlite) where
  -- What an event of the user or of the session does not change of the application.
  pub record Preserved (Q : App vt → Type 0) : Type 0 where
    pub by_error : (app : App vt) (e : Option Text) → Q app → Q (record app { last_error = e })
    pub by_terminal : (app : App vt) (t : Terminal vt) → Q app → Q (record app { terminal = t })
    pub by_key :
        (app : App vt) (conn : db.Conn) (clock : Option ℕ) (k : KeyEvent)
        → Q app
        → (r : App vt × db.Conn × Action) × (on_key vt db app conn clock k ≡ some r) × Q r.0
    pub by_event : (app : App vt) (e : SessionEvent) → Q app → Q (on_session_event vt app e)

  -- The buffer stays valid.
  abbrev pub Sound : App vt → Type 0
  Sound app = IsValid app.shadow

  pub sound : Preserved Sound
  sound = record {
    by_error = λ app e v. v;
    by_terminal = λ app t v. v;
    by_key = λ app conn clock k v.
        let (app', conn', action, ran, answered, valid) = on_key-Answers vt db app conn clock k v in
        ((app', conn', action), ran, valid);
    by_event = λ app e v. on_session_event-IsValid vt app e v;
  }

module _ (vt : Vt) (db : Sqlite) (commands : Commands) where
  abbrev pub IsSound : Main vt db commands → Type 0
  IsSound m = IsValid m.app.shadow

  module _ (Q : App vt → Type 0) (laws : Preserved vt db Q) where
    abbrev pub Has : Main vt db commands → Type 0
    Has m = Q m.app

    reported-Has :
        (m : Main vt db commands) (r : Result SessionError commands.Handle)
        → Has m
        → Has (MainLoop.reported vt db commands m r)
    unfolding MainLoop.reported
    reported-Has m (ok h) v = v
    reported-Has m (err e) v = laws.by_error m.app _ v

    ignored-Has :
        (m : Main vt db commands) (r : Result SessionError commands.Handle)
        → Has m
        → Has (MainLoop.ignored vt db commands m r)
    unfolding MainLoop.ignored
    ignored-Has m (ok h) v = v
    ignored-Has m (err e) v = v

    on_action-Has :
        (m : Main vt db commands) (a : Action)
        → Has m
        → Has (MainLoop.on_action vt db commands m a).1
    unfolding MainLoop.on_action
    on_action-Has m (send bytes) v = reported-Has m _ v
    on_action-Has m quit v = ignored-Has m _ v
    on_action-Has m toggle_mouse_capture v = v
    on_action-Has m copy_to_clipboard v = v
    on_action-Has m nothing v = v

    send_report-Has :
        (m : Main vt db commands) (bytes : Bytes)
        → Has m
        → Has (MainLoop.send_report vt db commands m bytes)
    unfolding MainLoop.send_report
    send_report-Has m [] v = v
    send_report-Has m (b ∷ bs) v = reported-Has m _ v

    on_mouse-Has :
        (m : Main vt db commands) (mouse : MouseEvent) (k : MouseEventKind)
        → Has m
        → Has (MainLoop.on_mouse vt db commands m mouse k)
    unfolding MainLoop.on_mouse MainLoop.scrolled
    on_mouse-Has m mouse scroll_up v =
        elim (Bool-cases (not (Terminal.is_alt_screen vt m.app.terminal))) [
          | inl t ↦ rw t (laws.by_terminal m.app _ v)
          | inr t ↦ rw t (send_report-Has m _ v)
        ]
    on_mouse-Has m mouse scroll_down v =
        elim (Bool-cases (not (Terminal.is_alt_screen vt m.app.terminal))) [
          | inl t ↦ rw t (laws.by_terminal m.app _ v)
          | inr t ↦ rw t (send_report-Has m _ v)
        ]
    on_mouse-Has m mouse _ v = send_report-Has m _ v

    -- A result that is no panic, in a sound state.
    abbrev Survives : Option (Bool × Main vt db commands) → Type 0
    Survives o = (r : Bool × Main vt db commands) × (o ≡ some r) × Has r.1

    pressed-Survives :
        (m : Main vt db commands) (clock : Option ℕ) (key : KeyEvent)
        → Has m
        → Survives (
            on_key vt db m.app m.conn clock key >>= λ r.
            some (MainLoop.on_action vt db commands (record m { app = r.0; conn = r.1 }) r.2))
    pressed-Survives m clock key v =
        let ((app', conn', action), ran, valid) = laws.by_key m.app m.conn clock key v in
        let m' : Main vt db commands = record m { app = app'; conn = conn' } in
        (
          MainLoop.on_action vt db commands m' action,
          rw (ran, ◌>>=◌) refl,
          on_action-Has m' action valid,
        )

    on_key_event-Survives :
        (m : Main vt db commands) (clock : Option ℕ) (key : KeyEvent) (k : KeyEventKind)
        → Has m
        → Survives (MainLoop.on_key_event vt db commands m clock key k)
    unfolding MainLoop.on_key_event
    on_key_event-Survives m clock key release v = ((false, m), refl, v)
    on_key_event-Survives m clock key _ v = pressed-Survives m clock key v

    resized-Has :
        (m : Main vt db commands) (size : ℕ × ℕ)
        → Has m
        → Has (MainLoop.resized vt db commands m size)
    unfolding MainLoop.resized Output.on_resize
    resized-Has m (cols, rows) v =
        laws.by_terminal
          (MainLoop.ignored vt db commands m (request_resize commands m.handle cols rows)).app _
          (ignored-Has m (request_resize commands m.handle cols rows) v)

    handle_terminal_event-Survives :
        (m : Main vt db commands) (clock : Option ℕ) (e : Event)
        → Has m
        → Survives (MainLoop.handle_terminal_event vt db commands m clock e)
    unfolding MainLoop.handle_terminal_event
    handle_terminal_event-Survives m clock (key_event key) v =
        on_key_event-Survives m clock key key.kind v
    handle_terminal_event-Survives m clock (mouse_event mouse) v =
        (_, refl, on_mouse-Has m mouse mouse.kind v)
    handle_terminal_event-Survives m clock (paste text) v = (_, refl, reported-Has m _ v)
    handle_terminal_event-Survives m clock (resize_event cols rows) v =
        (_, refl, resized-Has m (vt_dims cols rows) v)
    handle_terminal_event-Survives m clock other_event v = (_, refl, v)

    -- The same for an input of the loop.
    abbrev pub Proceeds : Option (Bool × Bool × Main vt db commands) → Type 0
    Proceeds o = (r : Bool × Bool × Main vt db commands) × (o ≡ some r) × Has r.2

    handled-Proceeds :
        (o : Option (Bool × Main vt db commands))
        → Survives o
        → Proceeds (o >>= λ r. some (r.0, not r.0, r.1))
    handled-Proceeds o (r, e, v) = ((r.0, not r.0, r.1), rw e refl, v)

    pub on_input-Proceeds :
        (m : Main vt db commands) (clock : Option ℕ) (i : Input)
        → Has m
        → Proceeds (on_input vt db commands m clock i)
    unfolding on_input
    on_input-Proceeds m clock (terminal_event none) v = (_, refl, v)
    on_input-Proceeds m clock (terminal_event (some (err e))) v = (_, refl, v)
    on_input-Proceeds m clock (terminal_event (some (ok e))) v =
        handled-Proceeds _ (handle_terminal_event-Survives m clock e v)
    on_input-Proceeds m clock (session_event none) v = (_, refl, v)
    on_input-Proceeds m clock (session_event (some driver_closed)) v =
        (_, refl, laws.by_event m.app driver_closed v)
    on_input-Proceeds m clock (session_event (some e)) v = (_, refl, laws.by_event m.app e v)

  sync_mouse-IsSound :
      (m : Main vt db commands) (redraw : Bool)
      → IsSound m
      → IsSound (MainLoop.sync_mouse vt db commands m redraw).1
  unfolding MainLoop.sync_mouse
  sync_mouse-IsSound m redraw v = elim (Bool-cases m.app.mouse_capture_changed) [
    | inl t ↦ rw t v
    | inr t ↦ rw t v
  ]

  sync_clipboard-IsSound :
      (base64 : Text → Bytes) (m : Main vt db commands)
      → IsSound m
      → IsSound (MainLoop.sync_clipboard vt db commands base64 m).1
  unfolding MainLoop.sync_clipboard
  sync_clipboard-IsSound base64 m v = elim (Option-cases m.app.pending_clipboard) [
    | inl n ↦ rw n v
    | inr (text, n) ↦ rw n v
  ]

  pub before_select-IsSound :
      (base64 : Text → Bytes) (m : Main vt db commands) (redraw : Bool)
      → IsSound m
      → IsSound (before_select vt db commands base64 m redraw).1
  unfolding before_select
  before_select-IsSound base64 m redraw v =
      sync_clipboard-IsSound base64 _ (sync_mouse-IsSound m redraw v)
