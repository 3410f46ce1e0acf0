-- ===== src/Launch/Program.antt =====
-- The whole of `main` and `run_tui` of crates/tiny-ssh-cli/src/main.rs behind the command line: the
-- history is opened, the session is started, and the main loop runs between the steps on the user's
-- terminal. What `select!` yields is given.
pub mod Outcome
pub mod Tests
use tiny_ssh.Base.{ℕ, Bool, true, false, Option, none, some, List, [], ◌∷◌, Bytes, Result, ok, err}
use tiny_ssh.Utf8.{Text}
use tiny_ssh.History.Database.{Sqlite}
use tiny_ssh.History.Open.{Disk, open_default}
use tiny_ssh.Config.{SshConfig, PtyConfig}
use tiny_ssh.Terminal.{Vt}
use tiny_ssh.Session.Handle.{Commands}
use tiny_ssh.Session.Spawn
use tiny_ssh.Session.Spawn.{Runtime, spawn, dropped}
use tiny_ssh.App
use tiny_ssh.MainLoop.{Input, Main}
use tiny_ssh.MainLoop.Drive.{Tty, drive}
use tiny_ssh.MainLoop.Tui.{Step, Driven, panicked, waits, returned, run_tui}
use tiny_ssh.Launch.{Cli, Environment, LaunchError, launch}

module _ (vt : Vt) (db : Sqlite) (commands : Commands) (runtime : Runtime commands)
    (tty : Tty) where
  open db use {Conn}
  open runtime use {Task}
  open tty use {State}

  -- The state that `drive` begins in, and a first frame to draw.
  unfoldable pub first :
      SshConfig → PtyConfig → Conn → Spawn.SessionHandle commands runtime → Main vt db commands
  first config pty conn handle = record {
    app = App.new vt config.host config.user pty.cols pty.rows;
    conn = conn;
    handle = handle.input;
  }

  -- The task that is aborted: the handle is dropped once the program returns, or panics.
  unfoldable pub aborted :
      {A : Type 0} → Driven A → Spawn.SessionHandle commands runtime → Option Task
  aborted (waits a) handle = none
  aborted panicked handle = dropped commands runtime handle
  aborted (returned r) handle = dropped commands runtime handle

  -- The steps that have been done, the terminal, what comes of the loop, and the task that is aborted.
  abbrev pub Run : Type 0
  Run = List Step × State × Driven (Main vt db commands) × Option Task

  unfoldable pub run_session :
      (Step → Option Text)
      → (Text → Bytes)
      → State
      → List (Option ℕ × Input)
      → Conn
      → SshConfig
      → PtyConfig
      → Spawn.SessionHandle commands runtime
      → Run
  run_session failure base64 t inputs conn config pty handle =
      let m = first config pty conn handle in
      let (steps, t', driven) =
        run_tui failure (λ t0. drive tty vt db commands base64 t0 m true inputs) t in
      (steps, t', driven, aborted driven handle)

  -- `main`, and the counter of the sessions.
  unfoldable pub program :
      Environment
      → Disk db
      → Cli
      → Option (ℕ × ℕ)
      → (Step → Option Text)
      → (Text → Bytes)
      → State
      → List (Option ℕ × Input)
      → ℕ
      → Result LaunchError Run
  program env disk cli size failure base64 t inputs counter =
      elim (launch env cli size (open_default db disk)) [
        | err e ↦ err e
        | ok (config, pty, conn) ↦ ok (
            run_session failure base64 t inputs conn config pty
              (spawn commands runtime config pty counter).0)
      ]
