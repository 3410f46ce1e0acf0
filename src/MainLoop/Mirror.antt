-- ===== src/MainLoop/Mirror.antt =====
-- What the application (crates/tiny-ssh-cli/src/app.rs) shows at the end of a session
-- (crates/tiny-ssh-core/src/session.rs).
use tiny_ssh.Base.{◌≡◌, refl, some, true, List, [], ◌∷◌, ◌++◌}
use tiny_ssh.Terminal.{Vt}
use tiny_ssh.Session
use tiny_ssh.Session.{
  SessionState, SessionEvent, connecting, authenticated, shell_open, state_changed, driver_closed,
  failed, error,
}
use tiny_ssh.Session.Channel.{Russh, to_string}
use tiny_ssh.Session.Driver
use tiny_ssh.Session.Driver.{Mpsc, MpscLaws, Branch, Opening, refused, no_shell, opened}
use tiny_ssh.Session.Delivery.{IsAttended, Delivers}
use tiny_ssh.Session.Lifecycle.{Life, driver_task-Life}
use tiny_ssh.App.{App}
use tiny_ssh.App.Output.{on_session_event}

module _ (vt : Vt) (russh : Russh) where
  -- The application behind events that it has handled in order.
  abbrev pub behind : App vt → List SessionEvent → App vt
  behind app [] = app
  behind app (e ∷ es) = behind (on_session_event vt app e) es

  -- The session is shown as closed, or as failed with the error.
  abbrev pub ShowsEnd : Opening russh → App vt → Type 0
  ShowsEnd (refused e) app =
      (app.closed ≡ true)
      × (app.state ≡ failed (to_string e))
      × (app.last_error ≡ some (to_string e))
  ShowsEnd (no_shell e) app =
      (app.closed ≡ true)
      × (app.state ≡ failed (to_string e))
      × (app.last_error ≡ some (to_string e))
  ShowsEnd (opened c) app = (app.closed ≡ true) × (app.state ≡ Session.closed)

  closing-ShowsEnd :
      (es : List SessionEvent) (app : App vt) (c : russh.Channel)
      → ShowsEnd (opened c) (behind app (es ++ (state_changed Session.closed ∷ driver_closed ∷ [])))
  unfolding on_session_event
  closing-ShowsEnd [] app c = (refl, refl)
  closing-ShowsEnd (e ∷ es) app c = closing-ShowsEnd es (on_session_event vt app e) c

  module _ (mpsc : Mpsc) (laws : MpscLaws mpsc) where
    Life-ShowsEnd :
        (opening : Opening russh) (bs : List Branch) (es : List SessionEvent) (app : App vt)
        → Life russh mpsc laws opening bs es
        → ShowsEnd opening (behind app es)
    unfolding on_session_event
    Life-ShowsEnd (refused e) bs es app life = rw life (refl, refl, refl)
    Life-ShowsEnd (no_shell e) bs es app life = rw life (refl, refl, refl)
    Life-ShowsEnd (opened c) bs es app (taken, io, up_to_end, are_io, relayed, es_is) = rw es_is (
        closing-ShowsEnd io
          (on_session_event vt
            (on_session_event vt (on_session_event vt app (state_changed connecting))
              (state_changed authenticated))
            (state_changed shell_open))
          c)

    -- While the handle keeps its receiver: once the driver has ended and the application has
    -- handled what it has posted, the session is shown as over: as failed, with the error, if the
    -- connection or the shell was refused, and else as closed.
    pub driver_task-ShowsEnd :
        IsAttended russh mpsc laws
        → (tx tx' : mpsc.Sender) (opening : Opening russh) (bs : List Branch) (app : App vt)
        → Driver.driver_task russh mpsc tx opening bs ≡ some tx'
        → (es : List SessionEvent) × Delivers russh mpsc laws tx tx' es
          × ShowsEnd opening (behind app es)
    driver_task-ShowsEnd attended tx tx' opening bs app h =
        let (es, sent, life) = driver_task-Life russh mpsc laws attended tx tx' opening bs h in
        (es, sent, Life-ShowsEnd opening bs es app life)
