-- ===== src/MainLoop/Stopping.antt =====
-- The inputs that end the main loop of crates/tiny-ssh-cli/src/main.rs.
use tiny_ssh.Base.{
  ℕ, ◌≡◌, refl, subst, Bool, true, false, not, ◌&&◌, ◌||◌, Option, none, some, List, [], ◌∷◌, ◌>>=◌,
  ok, err, Bool-cases, inl, inr,
}
use tiny_ssh.Keys.{KeyEvent, KeyEventKind, release}
use tiny_ssh.History.Database.{Sqlite}
use tiny_ssh.Terminal.{Vt}
use tiny_ssh.Session.{driver_closed}
use tiny_ssh.Session.Handle.{Commands}
use tiny_ssh.App.{App, Action, send, quit, toggle_mouse_capture, copy_to_clipboard, nothing}
use tiny_ssh.App.Input.{on_key, is_char}
use tiny_ssh.MainLoop
use tiny_ssh.MainLoop.{
  Event, key_event, mouse_event, paste, resize_event, other_event, Input, terminal_event,
  session_event, Output, Main, before_select, on_input, draw,
}
use tiny_ssh.MainLoop.Stays.{Stays, on_key-Stays}

abbrev pub is_down : KeyEventKind → Bool
is_down release = false
is_down _ = true

-- Ctrl-Q that goes down, or is held.
abbrev pub is_quit : KeyEvent → Bool
is_quit k = is_down k.kind && (k.modifiers.control && is_char k.code b'q')

-- The end of one of the streams, the end of the driver, or Ctrl-Q.
abbrev pub ends : Input → Bool
ends (terminal_event none) = true
ends (terminal_event (some (ok (key_event k)))) = is_quit k
ends (session_event none) = true
ends (session_event (some driver_closed)) = true
ends _ = false

abbrev pub some_ends : List (Option ℕ × Input) → Bool
some_ends [] = false
some_ends ((clock, i) ∷ inputs) = ends i || some_ends inputs

-- Unless it panics, whether it stops is `b`.
abbrev pub Stopped : {A : Type 0} → Option (Bool × A) → Bool → Type 0
Stopped none b = Unit
Stopped (some r) b = r.0 ≡ b

abbrev pub Stops : {A : Type 0} → Option (Bool × Bool × A) → Bool → Type 0
Stops none b = Unit
Stops (some r) b = r.0 ≡ b

module _ (vt : Vt) (db : Sqlite) (commands : Commands) where
  on_action-stays :
      (m : Main vt db commands) (a : Action)
      → (a ≡ quit → ⊥)
      → (MainLoop.on_action vt db commands m a).0 ≡ false
  unfolding MainLoop.on_action
  on_action-stays m (send bytes) h = refl
  on_action-stays m quit h = absurd (h refl)
  on_action-stays m toggle_mouse_capture h = refl
  on_action-stays m copy_to_clipboard h = refl
  on_action-stays m nothing h = refl

  after_key :
      (m : Main vt db commands) (o : Option (App vt × db.Conn × Action))
      → Stays vt db o
      → Stopped
          (o >>= λ r.
            some (MainLoop.on_action vt db commands (record m { app = r.0; conn = r.1 }) r.2))
          false
  after_key m none h = tt
  after_key m (some (app, conn, a)) h = on_action-stays (record m { app = app; conn = conn }) a h

  on_key-quit :
      (app : App vt) (conn : db.Conn) (clock : Option ℕ) (k : KeyEvent)
      → (k.modifiers.control && is_char k.code b'q') ≡ true
      → on_key vt db app conn clock k ≡ some (app, conn, quit)
  unfolding on_key
  on_key-quit app conn clock k t = rw t refl

  -- A key that is not a release.
  abbrev pressed : Main vt db commands → Option ℕ → KeyEvent → Option (Bool × Main vt db commands)
  pressed m clock k = on_key vt db m.app m.conn clock k >>= λ r.
      some (MainLoop.on_action vt db commands (record m { app = r.0; conn = r.1 }) r.2)

  pressed-Stopped :
      (m : Main vt db commands) (clock : Option ℕ) (k : KeyEvent)
      → Stopped (pressed m clock k) (k.modifiers.control && is_char k.code b'q')
  unfolding MainLoop.on_action
  pressed-Stopped m clock k = elim (Bool-cases (k.modifiers.control && is_char k.code b'q')) [
    | inl t ↦ rw (t, on_key-quit m.app m.conn clock k t, Stopped) refl
    | inr n ↦ rw n (after_key m _ (on_key-Stays vt db m.app m.conn clock k n))
  ]

  on_key_event-Stopped :
      (m : Main vt db commands) (clock : Option ℕ) (k : KeyEvent) (kind : KeyEventKind)
      → Stopped
          (MainLoop.on_key_event vt db commands m clock k kind)
          (is_down kind && (k.modifiers.control && is_char k.code b'q'))
  unfolding MainLoop.on_key_event
  on_key_event-Stopped m clock k release = refl
  on_key_event-Stopped m clock k _ = pressed-Stopped m clock k

  handled-Stopped :
      (o : Option (Bool × Main vt db commands)) (b : Bool)
      → Stopped o b
      → Stops (o >>= λ r. some (r.0, not r.0, r.1)) b
  handled-Stopped none b h = tt
  handled-Stopped (some r) b h = h

  pub on_input-Stopped :
      (m : Main vt db commands) (clock : Option ℕ) (i : Input)
      → Stops (on_input vt db commands m clock i) (ends i)
  unfolding on_input MainLoop.handle_terminal_event
  on_input-Stopped m clock (terminal_event none) = refl
  on_input-Stopped m clock (terminal_event (some (err e))) = refl
  on_input-Stopped m clock (terminal_event (some (ok (key_event k)))) =
      handled-Stopped _ (is_quit k) (on_key_event-Stopped m clock k k.kind)
  on_input-Stopped m clock (terminal_event (some (ok _))) = refl
  on_input-Stopped m clock (session_event none) = refl
  on_input-Stopped m clock (session_event (some driver_closed)) = refl
  on_input-Stopped m clock (session_event (some _)) = refl

  pub stopped_at :
      (o : Option (Bool × Bool × Main vt db commands)) (r : Bool × Bool × Main vt db commands)
      (b : Bool)
      → o ≡ some r
      → Stops o b
      → r.0 ≡ b
  stopped_at o r b e h = subst (λ (p : Option (Bool × Bool × Main vt db commands)). Stops p b) e h
