-- ===== src/MainLoop/Capture.antt =====
-- The mouse capture of the user's terminal and that of the application
-- (crates/tiny-ssh-cli/src/main.rs and app.rs).
use tiny_ssh.Base.{
  ℕ, ◌≡◌, ◌⊎◌, refl, subst, Bool, true, not, Option, some, List, [], ◌∷◌, Bytes, Bool-cases, inl,
  inr,
}
use tiny_ssh.Keys.{KeyEvent}
use tiny_ssh.History.Database.{Sqlite}
use tiny_ssh.Osc.{OscEvent, prompt_start, prompt_end, command_start, command_end, cwd}
use tiny_ssh.Terminal.{Vt}
use tiny_ssh.Session.{
  SessionEvent, state_changed, output, stderr, exit_status, error, driver_closed,
}
use tiny_ssh.App.{App, Action}
use tiny_ssh.App.Input.{on_key}
use tiny_ssh.App.Output
use tiny_ssh.App.Output.{on_session_event, on_osc_event, on_osc_events, on_output}
use tiny_ssh.App.Valid.{IsValid, on_key-Answers}
use tiny_ssh.App.Events.{on_session_event-IsValid}
use tiny_ssh.MainLoop.Kept.{KeyClosed, Holds, on_key-Holds}
use tiny_ssh.MainLoop.Safe.{Preserved}

module _ (vt : Vt) where
  -- The terminal captures as the application wants it, or is still to be told.
  abbrev pub Due : Bool → App vt → Type 0
  Due c app = (c ≡ app.mouse_capture) ⊎ (app.mouse_capture_changed ≡ true)

  module _ (c : Bool) where
    due : (app : App vt) → Due c app → KeyClosed vt app (Due c)
    due app d = record {
      by_nothing = d;
      by_shadow = λ s. d;
      by_mouse = inr refl;
      by_copy = λ text. d;
    }

    on_osc_events-Due :
        (es : List OscEvent) (app : App vt) → Due c app → Due c (on_osc_events vt app es)
    unfolding on_osc_events on_osc_event
    on_osc_events-Due [] app d = d
    on_osc_events-Due (prompt_start ∷ es) app d = on_osc_events-Due es app d
    on_osc_events-Due (prompt_end ∷ es) app d =
        on_osc_events-Due es (on_osc_event vt app prompt_end) d
    on_osc_events-Due (command_start ∷ es) app d =
        on_osc_events-Due es (on_osc_event vt app command_start) d
    on_osc_events-Due (command_end ∷ es) app d = on_osc_events-Due es app d
    on_osc_events-Due (cwd p ∷ es) app d = on_osc_events-Due es (on_osc_event vt app (cwd p)) d

    heuristic-Due :
        (app : App vt) (bytes : Bytes)
        → Due c app
        → Due c (Output.handle_prompt_heuristic vt app bytes)
    unfolding Output.handle_prompt_heuristic
    heuristic-Due app bytes d = elim (Bool-cases (not app.last_input_was_enter)) [
      | inl t ↦ rw t d
      | inr t ↦ rw t (elim (Bool-cases (not (Output.contains b'\n' bytes))) [
        | inl u ↦ rw u d
        | inr u ↦ rw u d
      ])
    ]

    on_output-Due : (app : App vt) (bytes : Bytes) → Due c app → Due c (on_output vt app bytes)
    unfolding on_output
    on_output-Due app bytes d = heuristic-Due _ bytes (on_osc_events-Due _ _ d)

    on_session_event-Due :
        (app : App vt) (e : SessionEvent) → Due c app → Due c (on_session_event vt app e)
    unfolding on_session_event
    on_session_event-Due app (output bytes) d = on_output-Due app bytes d
    on_session_event-Due app (stderr bytes) d = on_output-Due app bytes d
    on_session_event-Due app (state_changed s) d = d
    on_session_event-Due app (exit_status s) d = d
    on_session_event-Due app (error msg) d = d
    on_session_event-Due app driver_closed d = d

    module _ (db : Sqlite) where
      -- A valid buffer besides.
      abbrev pub SoundDue : App vt → Type 0
      SoundDue app = IsValid app.shadow × Due c app

      key-SoundDue :
          (app : App vt) (conn : db.Conn) (clock : Option ℕ) (k : KeyEvent)
          → SoundDue app
          → (r : App vt × db.Conn × Action) × (on_key vt db app conn clock k ≡ some r)
            × SoundDue r.0
      key-SoundDue app conn clock k (v, d) =
          let (app', conn', action, ran, answered, valid) =
            on_key-Answers vt db app conn clock k v in
          let held : Due c app' =
            subst (Holds vt db (Due c)) ran
              (on_key-Holds vt db (Due c) app (due app d) conn clock k) in
          ((app', conn', action), ran, (valid, held))

      pub sound_due : Preserved vt db SoundDue
      sound_due = record {
        by_error = λ app e q. q;
        by_terminal = λ app t q. q;
        by_key = key-SoundDue;
        by_event =
            λ app e q. (on_session_event-IsValid vt app e q.0, on_session_event-Due app e q.1);
      }
