-- ===== src/Launch/Program/Outcome.antt =====
-- What comes of the whole program (`main` of crates/tiny-ssh-cli/src/main.rs), and in which state it
-- leaves the user's terminal.
use tiny_ssh.Base.{
  ◌≡◌, refl, subst, ap, ℕ, true, false, Option, none, some, List, [], ◌∷◌, ◌++◌, Bytes, Result, ok,
  err, arith, append-nil, ◌∙◌, ◌⊎◌, inl, inr,
}
use tiny_ssh.Utf8.{Text}
use tiny_ssh.History.Database.{Sqlite}
use tiny_ssh.History.Open.{Disk, open_default}
use tiny_ssh.Config.{SshConfig, PtyConfig}
use tiny_ssh.Terminal.{Vt}
use tiny_ssh.Session.Handle.{Commands}
use tiny_ssh.Session.Spawn
use tiny_ssh.Session.Spawn.{Runtime, spawn, dropped}
use tiny_ssh.App
use tiny_ssh.Target.Forms.{Form, IsForm, render}
use tiny_ssh.MainLoop.{Input, Main}
use tiny_ssh.MainLoop.Drive.{Tty}
use tiny_ssh.MainLoop.Safe.{IsSound}
use tiny_ssh.MainLoop.Ends.{Ends, AllWork, Fails, drive-Ends}
use tiny_ssh.MainLoop.Stopping.{some_ends}
use tiny_ssh.MainLoop.Setup.{setup, steps_of, Work, Broken, Attempted, attempt-Attempted}
use tiny_ssh.MainLoop.Tui.{
  Step, disable_raw_mode, leave_screen, show_cursor, setup_terminal, teardown_terminal, Driven,
  panicked, waits, returned, torn_down, run_tui,
}
use tiny_ssh.Launch.{Cli, Environment, LaunchError}
use tiny_ssh.Launch.Settings.{Launched, launch-Launched}
use tiny_ssh.Launch.Program.{first, aborted, Run, run_session, program}

module _ (vt : Vt) (db : Sqlite) (commands : Commands) (runtime : Runtime commands)
    (tty : Tty) where
  open tty use {State, emit}

  module _ (failure : Step → Option Text) (inputs : List (Option ℕ × Input)) (t0 : State)
      {Task : Type 0} (own : Task) where
    -- What the terminal has been through, what comes of the loop, and the task that is aborted: no
    -- panic; a terminal that is ready as long as the loop waits, for which all that is written has
    -- worked, and a task that runs on; or else the session's own task, and a terminal that is put
    -- back once the loop returns, of itself or by the write that fails, or one in which a step that
    -- makes it ready has failed, and to which nothing is written.
    abbrev pub Ran : List Step × State × Driven (Main vt db commands) × Option Task → Type 0
    Ran (steps, t, panicked, task) = ⊥
    Ran (steps, t, waits m, task) =
        (steps ≡ steps_of setup)
        × Work failure (steps_of setup)
        × (some_ends inputs ≡ false)
        × IsSound vt db commands m
        × AllWork vt db commands tty t0 t
        × (task ≡ none)
    Ran (steps, t, returned (ok m), task) =
        (steps ≡ steps_of setup ++ disable_raw_mode ∷ leave_screen ∷ show_cursor ∷ [])
        × Work failure (steps_of setup)
        × (some_ends inputs ≡ true)
        × IsSound vt db commands m
        × AllWork vt db commands tty t0 t
        × (task ≡ some own)
    Ran (steps, t, returned (err e), task) =
        ((Broken failure setup steps e × (t ≡ t0))
          ⊎ ((steps ≡ steps_of setup ++ disable_raw_mode ∷ leave_screen ∷ show_cursor ∷ [])
              × Work failure (steps_of setup)
              × Fails vt db commands tty t0 t e))
        × (task ≡ some own)

    module _ (stop : Driven (Main vt db commands) → Option Task)
        (stays : (m : Main vt db commands) → stop (waits m) ≡ none)
        (stops : (o : Result Text (Main vt db commands)) → stop (returned o) ≡ some own) where
      ended :
          (done : List Step) (d : State × Driven (Main vt db commands))
          → (done ≡ steps_of setup)
          → Work failure done
          → Ends vt db commands tty t0 d (some_ends inputs)
          → Ran (done ++ torn_down d.1, d.0, d.1, stop d.1)
      unfolding torn_down teardown_terminal
      ended done (t, panicked) q w e = e
      ended done (t, waits m) q w (v, b, all) =
          (append-nil done ∙ q, subst (Work failure) q w, b, v, all, stays m)
      ended done (t, returned (ok m)) q w (v, b, all) = (
        ap (◌++ disable_raw_mode ∷ leave_screen ∷ show_cursor ∷ []) q,
        subst (Work failure) q w,
        b,
        v,
        all,
        stops (ok m),
      )
      ended done (t, returned (err e)) q w x = (
        inr (
          ap (◌++ disable_raw_mode ∷ leave_screen ∷ show_cursor ∷ []) q,
          subst (Work failure) q w,
          x,
        ),
        stops (err e),
      )

      set_up :
          (r : List Step × Option Text) (d : State × Driven (Main vt db commands))
          → Attempted failure setup r
          → Ends vt db commands tty t0 d (some_ends inputs)
          → let run : List Step × State × Driven (Main vt db commands) = elim r.1 [
            | some e ↦ (r.0, t0, returned (err e))
            | none ↦ (r.0 ++ torn_down d.1, d.0, d.1)
          ] in
            Ran (run.0, run.1, run.2, stop run.2)
      set_up (done, none) d (q, w) e = ended done d q w e
      set_up (done, some c) d b e = (inl (b, refl), stops (err c))

      run_tui-Ran :
          (f : State → State × Driven (Main vt db commands))
          → Ends vt db commands tty t0 (f t0) (some_ends inputs)
          → let run = run_tui failure f t0 in Ran (run.0, run.1, run.2, stop run.2)
      unfolding run_tui setup_terminal
      run_tui-Ran f e = set_up _ (f t0) (attempt-Attempted failure setup) e

  module _ (env : Environment) (disk : Disk db) where
    open runtime use {Task, start}

    -- What comes of a command line: an error of the secret or of the history, before the terminal is
    -- touched; or else a session as it is meant.
    abbrev pub Finished :
        (Step → Option Text)
        → List (Option ℕ × Input)
        → State
        → Form
        → Cli
        → Option (ℕ × ℕ)
        → Result LaunchError (Run vt db commands runtime tty)
        → Type 0
    Finished failure inputs t0 t cli size (err e) =
        Launched env (open_default db disk) t cli size (err e)
    Finished failure inputs t0 t cli size (ok run) =
        (r : SshConfig × PtyConfig × db.Conn) × Launched env (open_default db disk) t cli size
          (ok r)
        × Ran failure inputs t0 (start r.0 r.1).2 run

    new-IsSound :
        (r : SshConfig × PtyConfig × db.Conn) (handle : Spawn.SessionHandle commands runtime)
        → IsSound vt db commands (first vt db commands runtime tty r.0 r.1 r.2 handle)
    unfolding first App.new
    new-IsSound r handle = record { cursor-le-length = omega arith; is_proper = λ g q n. cc }

    run_session-Ran :
        (failure : Step → Option Text) (base64 : Text → Bytes) (t0 : State)
        (inputs : List (Option ℕ × Input)) (r : SshConfig × PtyConfig × db.Conn) (counter : ℕ)
        → let run =
            run_session vt db commands runtime tty failure base64 t0 inputs r.2 r.0 r.1
              (spawn commands runtime r.0 r.1 counter).0 in
          Ran failure inputs t0 (start r.0 r.1).2 run
    unfolding run_session aborted spawn dropped
    run_session-Ran failure base64 t0 inputs r counter =
        let handle = (spawn commands runtime r.0 r.1 counter).0 in
        run_tui-Ran failure inputs t0 (start r.0 r.1).2
          (λ d. aborted vt db commands runtime tty d handle) (λ m. refl) (λ o. refl) _
          (drive-Ends vt db commands tty base64 inputs t0 _ true (new-IsSound r handle))

    by_launch :
        (failure : Step → Option Text) (base64 : Text → Bytes) (t0 : State)
        (inputs : List (Option ℕ × Input)) (t : Form) (cli : Cli) (size : Option (ℕ × ℕ))
        (counter : ℕ) (o : Result LaunchError (SshConfig × PtyConfig × db.Conn))
        → Launched env (open_default db disk) t cli size o
        → Finished failure inputs t0 t cli size (elim o [
          | err e ↦ err e
          | ok (config, pty, conn) ↦ ok (
              run_session vt db commands runtime tty failure base64 t0 inputs conn config pty
                (spawn commands runtime config pty counter).0)
        ])
    by_launch failure base64 t0 inputs t cli size counter (err e) l = l
    by_launch failure base64 t0 inputs t cli size counter (ok r) l =
        (r, l, run_session-Ran failure base64 t0 inputs r counter)

    -- A command line whose target is in one of the forms, whatever the user and the session then
    -- do: the program fails before it touches the terminal, if the secret or else the history is
    -- not got; or it starts the session that the command line means, and no string operation
    -- panics. Then an error is that of a step that makes the terminal ready, behind those before
    -- it, which are not undone, and nothing is written; or that of the last write of the main loop,
    -- behind writes that have worked, and every step that puts the terminal back has been tried:
    -- raw mode off, the screen left, the cursor shown, in this order. Without an error every write
    -- has worked, and the terminal is ready and the driver's task runs on while no input ends the
    -- loop; with such an input the program returns, and has tried the same three steps. Whenever it
    -- returns, the driver's task is aborted.
    pub program-Finished :
        (failure : Step → Option Text) (base64 : Text → Bytes) (t0 : State)
        (inputs : List (Option ℕ × Input)) (t : Form) (cli : Cli) (size : Option (ℕ × ℕ))
        (counter : ℕ)
        → IsForm t
        → cli.target ≡ render t
        → Finished failure inputs t0 t cli size
            (program vt db commands runtime tty env disk cli size failure base64 t0 inputs counter)
    unfolding program
    program-Finished failure base64 t0 inputs t cli size counter f e =
        by_launch failure base64 t0 inputs t cli size counter _
          (launch-Launched env (open_default db disk) t cli size f e)
