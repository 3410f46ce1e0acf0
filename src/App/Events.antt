-- ===== src/App/Events.antt =====
-- `on_session_event` of crates/tiny-ssh-cli/src/app.rs keeps the shadow buffer valid, and only a
-- prompt touches its text.
use tiny_ssh.Base.{List, [], ◌∷◌, Bool-cases, inl, inr, not, arith, Bytes}
use tiny_ssh.Terminal.{Vt}
use tiny_ssh.Osc.{OscEvent, prompt_start, prompt_end, command_start, command_end, cwd}
use tiny_ssh.Session.{
  SessionEvent, state_changed, output, stderr, exit_status, error, driver_closed,
}
use tiny_ssh.App.{App}
use tiny_ssh.App.Output.{
  on_osc_event, on_osc_events, handle_prompt_heuristic, on_output, on_session_event, contains,
}
use tiny_ssh.App.Valid.{IsValid}

module _ (vt : Vt) where
  on_osc_event-IsValid :
      (app : App vt) (e : OscEvent) → IsValid app.shadow → IsValid (on_osc_event vt app e).shadow
  unfolding on_osc_event
  on_osc_event-IsValid app prompt_start v = v
  on_osc_event-IsValid app prompt_end v = record {
    cursor-le-length = omega arith;
    is_proper = λ g q n. cc;
  }
  on_osc_event-IsValid app command_start v = v
  on_osc_event-IsValid app command_end v = v
  on_osc_event-IsValid app (cwd p) v = v

  on_osc_events-IsValid :
      (es : List OscEvent) (app : App vt)
      → IsValid app.shadow
      → IsValid (on_osc_events vt app es).shadow
  unfolding on_osc_events
  on_osc_events-IsValid [] app v = v
  on_osc_events-IsValid (e ∷ es) app v =
      on_osc_events-IsValid es (on_osc_event vt app e) (on_osc_event-IsValid app e v)

  handle_prompt_heuristic-IsValid :
      (app : App vt) (bytes : Bytes)
      → IsValid app.shadow
      → IsValid (handle_prompt_heuristic vt app bytes).shadow
  unfolding handle_prompt_heuristic
  handle_prompt_heuristic-IsValid app bytes v = elim (Bool-cases (not app.last_input_was_enter)) [
    | inl t ↦ rw t v
    | inr t ↦ rw t (elim (Bool-cases (not (contains b'\n' bytes))) [
      | inl u ↦ rw u v
      | inr u ↦ rw u (record { cursor-le-length = v.cursor-le-length; is_proper = v.is_proper })
    ])
  ]

  on_output-IsValid :
      (app : App vt) (bytes : Bytes) → IsValid app.shadow → IsValid (on_output vt app bytes).shadow
  unfolding on_output
  on_output-IsValid app bytes v =
      handle_prompt_heuristic-IsValid _ bytes (on_osc_events-IsValid _ _ v)

  pub on_session_event-IsValid :
      (app : App vt) (e : SessionEvent)
      → IsValid app.shadow
      → IsValid (on_session_event vt app e).shadow
  unfolding on_session_event
  on_session_event-IsValid app (state_changed s) v = v
  on_session_event-IsValid app (output bytes) v = on_output-IsValid app bytes v
  on_session_event-IsValid app (stderr bytes) v = on_output-IsValid app bytes v
  on_session_event-IsValid app (exit_status s) v = v
  on_session_event-IsValid app (error msg) v = v
  on_session_event-IsValid app driver_closed v = v
