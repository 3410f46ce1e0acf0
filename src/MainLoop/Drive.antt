-- ===== src/MainLoop/Drive.antt =====
-- The loop of `drive` of crates/tiny-ssh-cli/src/main.rs. What `select!` yields is given, each input
-- with the clock; the user's terminal is the parameter `Tty`.
use tiny_ssh.Base.{
  ℕ, Bool, true, false, Option, none, some, List, [], ◌∷◌, Bytes, ok, err, if◌then◌else◌,
}
use tiny_ssh.Utf8.{Text}
use tiny_ssh.History.Database.{Sqlite}
use tiny_ssh.Terminal.{Vt}
use tiny_ssh.Session.Handle.{Commands}
use tiny_ssh.MainLoop.{Input, Output, draw, Main, before_select, on_input}
use tiny_ssh.MainLoop.Tui.{Driven, panicked, waits, returned}

-- A terminal after a write, and the error of the write.
pub record Tty : Type 1 where
  pub State : Type 0
  pub emit : State → Output → State × Option Text

module _ (tty : Tty) where
  open tty use {State, emit}

  -- Writes up to the first that fails.
  unfoldable pub emit_all : State → List Output → State × Option Text
  emit_all t [] = (t, none)
  emit_all t (o ∷ os) =
      let (t', failed) = emit t o in
      let rest = emit_all t' os in elim failed [ some e ↦ (t', some e) | none ↦ rest ]

  module _ (vt : Vt) (db : Sqlite) (commands : Commands) where
    -- `Ok(())` behind a write.
    unfoldable pub finished :
        State × Option Text → Main vt db commands → State × Driven (Main vt db commands)
    finished (t, none) m = (t, returned (ok m))
    finished (t, some e) m = (t, returned (err e))

    -- Behind the last input the loop waits. `finalize_after_close` is the frame that is drawn behind
    -- `Closed`.
    unfoldable pub drive :
        (Text → Bytes)
        → State
        → Main vt db commands
        → Bool
        → List (Option ℕ × Input)
        → State × Driven (Main vt db commands)
    drive base64 t m redraw [] =
        let (written, m') = before_select vt db commands base64 m redraw in
        let (t', failed) = emit_all t written in
        elim failed [ some e ↦ (t', returned (err e)) | none ↦ (t', waits m') ]
    drive base64 t m redraw ((clock, input) ∷ inputs) =
        let (written, m') = before_select vt db commands base64 m redraw in
        let (t', failed) = emit_all t written in
        elim failed [
          | some e ↦ (t', returned (err e))
          | none ↦ elim (on_input vt db commands m' clock input) [
            | none ↦ (t', panicked)
            | some (true, again, m'') ↦ finished (emit_all t' (if again then draw ∷ [] else [])) m''
            | some (false, again, m'') ↦ drive base64 t' m'' again inputs
          ]
        ]
