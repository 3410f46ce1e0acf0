-- ===== src/Launch.antt =====
-- `main` and `build_auth` of crates/tiny-ssh-cli/src/main.rs: from the command line to the
-- configuration of the session. The environment and the prompt for a password are parameters; the
-- history is opened once the secret is known.
pub mod Settings
pub mod Program
pub mod Tests
use tiny_ssh.Base.{ℕ, Option, none, some, List, [], ◌∷◌, ◌++◌, Result, ok, err, codes}
use tiny_ssh.Utf8.{Text}
use tiny_ssh.Target.{TargetError, parse_target, vt_dims}
use tiny_ssh.History.{HistoryError}
use tiny_ssh.Config
use tiny_ssh.Config.{AuthMethod, password, public_key, SshConfig, new_config, PtyConfig}

pub record Cli : Type 0 where
  pub target : Text
  pub port : Option ℕ
  pub key : Option Text
  pub password_env : Option Text
  pub passphrase_env : Option Text

-- `std::env::var(…).ok()`, the answer to a prompt, and the path for known hosts.
pub record Environment : Type 0 where
  pub var : Text → Option Text
  pub prompt_password : Text → Result Text Text
  pub known_hosts_path : Option Text

-- The errors of `main` up to the session.
pub data LaunchError : Type 0 where
  bad_target : TargetError → LaunchError
  not_set : Text → LaunchError
  no_password : Text → LaunchError
  no_history : HistoryError → LaunchError

-- `.filter(|s| !s.is_empty())`.
unfoldable pub not_empty : Option Text → Option Text
not_empty none = none
not_empty (some []) = none
not_empty (some (c ∷ cs)) = some (c ∷ cs)

module _ (env : Environment) where
  open env use {var, prompt_password, known_hosts_path}

  unfoldable pub passphrase_of : Option Text → Option Text
  passphrase_of none = none
  passphrase_of (some v) = not_empty (var v)

  unfoldable pub from_env : Text → Option Text → Result LaunchError AuthMethod
  from_env v none = err (not_set v)
  from_env v (some pw) = ok (password pw)

  unfoldable pub from_prompt : Result Text Text → Result LaunchError AuthMethod
  from_prompt (ok pw) = ok (password pw)
  from_prompt (err e) = err (no_password e)

  unfoldable pub password_of : Text → Text → Option Text → Result LaunchError AuthMethod
  password_of user host (some v) = from_env v (var v)
  password_of user host none =
      from_prompt (prompt_password (codes "password for " ++ (user ++ b'@' ∷ (host ++ codes ": "))))

  unfoldable pub build_auth : Text → Text → Cli → Result LaunchError AuthMethod
  build_auth user host cli = elim cli.key [
    | some path ↦ ok (public_key path (passphrase_of cli.passphrase_env))
    | none ↦ password_of user host cli.password_env
  ]

  -- `cli.port.or(port_from_target).unwrap_or(22)`.
  unfoldable pub port_of : Option ℕ → Option ℕ → ℕ
  port_of (some p) from_target = p
  port_of none (some p) = p
  port_of none none = 22

  -- The size of the grid and of the remote terminal, 80 by 24 if it is unknown.
  unfoldable pub pty_of : Option (ℕ × ℕ) → PtyConfig
  pty_of none = record {
    term = codes "xterm-256color";
    cols = (vt_dims 80 24).0;
    rows = (vt_dims 80 24).1;
  }
  pty_of (some (cols, rows)) = record {
    term = codes "xterm-256color";
    cols = (vt_dims cols rows).0;
    rows = (vt_dims cols rows).1;
  }

  -- The secret, and then the history.
  unfoldable pub configured {ℓ} :
      {Conn : Type ℓ}
      → Text
      → Text
      → ℕ
      → PtyConfig
      → Result LaunchError AuthMethod
      → Result HistoryError Conn
      → Result LaunchError (SshConfig × PtyConfig × Conn)
  configured user host port p (err e) history = err e
  configured user host port p (ok a) (err x) = err (no_history x)
  configured user host port p (ok a) (ok conn) =
      ok (Config.with_port (new_config known_hosts_path host user a) port, p, conn)

  -- `main` up to `spawn_session`, with what the history answers when it is opened.
  unfoldable pub launch {ℓ} :
      {Conn : Type ℓ}
      → Cli
      → Option (ℕ × ℕ)
      → Result HistoryError Conn
      → Result LaunchError (SshConfig × PtyConfig × Conn)
  launch cli size history = elim (parse_target cli.target) [
    | err e ↦ err (bad_target e)
    | ok (user, host, from_target) ↦
        configured user host (port_of cli.port from_target) (pty_of size) (build_auth user host cli)
          history
  ]
