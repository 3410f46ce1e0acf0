-- ===== src/Launch/Settings.antt =====
-- Where a session of a command line goes, and by which secret.
use tiny_ssh.Base.{
  ◌≡◌, ◌∙◌, refl, ap, sym, subst, ℕ, ◌+◌, ◌≤◌, ◌<◌, arith, Option, none, some, Result, ok, err, ◌⊎◌,
  inl, inr,
}
use tiny_ssh.Target.{parse_target, vt_dims}
use tiny_ssh.Target.Forms.{Form, IsForm, render, meaning, parse_target-render}
use tiny_ssh.History.{HistoryError}
use tiny_ssh.Utf8.{Text}
use tiny_ssh.HostKey.{HostKeyPolicy, known_hosts, accept_any, accept_on_first, default_known_hosts}
use tiny_ssh.Config
use tiny_ssh.Config.{AuthMethod, password, public_key, SshConfig, new_config, PtyConfig}
use tiny_ssh.Launch.{
  Cli, Environment, LaunchError, bad_target, no_history, build_auth, port_of, pty_of, configured,
  launch,
}

-- The port: of `-p`, or else of the target, or else 22.
abbrev pub IsPort : Option ℕ → Option ℕ → ℕ → Type 0
IsPort (some p) q n = n ≡ p
IsPort none (some p) n = n ≡ p
IsPort none none n = n ≡ 22

-- The terminal that is asked for: the window without its last row, and never empty.
abbrev pub FitsWindow : Option (ℕ × ℕ) → PtyConfig → Type 0
FitsWindow none p = (p.cols ≡ 80) × (p.rows ≡ 23)
FitsWindow (some (cols, rows)) p =
    (cols ≤ p.cols)
    × (rows ≤ p.rows + 1)
    × (0 < p.cols)
    × (0 < p.rows)
    × (0 < cols → p.cols ≡ cols)
    × (1 < rows → p.rows + 1 ≡ rows)

-- How the server's key is checked: against known hosts and the file of tssh, which learns unknown
-- hosts; or, without a directory for that file, not at all.
abbrev pub IsPolicy : Option Text → HostKeyPolicy → Type 0
IsPolicy (some path) policy = policy ≡ known_hosts path accept_on_first
IsPolicy none policy = policy ≡ accept_any

default_known_hosts-IsPolicy : (path : Option Text) → IsPolicy path (default_known_hosts path)
unfolding default_known_hosts
default_known_hosts-IsPolicy none = refl
default_known_hosts-IsPolicy (some path) = refl

module _ (env : Environment) {Conn : Type 0} (history : Result HistoryError Conn) where
  port_of-IsPort : (o q : Option ℕ) → IsPort o q (port_of env o q)
  unfolding port_of
  port_of-IsPort (some p) q = refl
  port_of-IsPort none (some p) = refl
  port_of-IsPort none none = refl

  pty_of-FitsWindow : (size : Option (ℕ × ℕ)) → FitsWindow size (pty_of env size)
  unfolding pty_of vt_dims
  pty_of-FitsWindow none = (refl, refl)
  pty_of-FitsWindow (some (cols, rows)) =
      (omega arith, omega arith, omega arith, omega arith, (λ h. omega arith), (λ h. omega arith))

  -- The host, the user and the port that the command line means, and the size of the window without
  -- the status line.
  pub record IsFor (t : Form) (cli : Cli) (size : Option (ℕ × ℕ)) (a : AuthMethod)
      (r : SshConfig × PtyConfig × Conn) : Type 0 where
    pub user_is : r.0.user ≡ (meaning t).0
    pub host_is : r.0.host ≡ (meaning t).1
    pub port_is : IsPort cli.port (meaning t).2 r.0.port
    pub auth_is : r.0.auth ≡ a
    pub policy_is : IsPolicy env.known_hosts_path r.0.host_key_policy
    pub limited : r.0.connect_timeout ≡ some 15
    pub pty_is : FitsWindow size r.1
    pub history_is : history ≡ ok r.2

  -- What the command line comes to: a session for its form, or the error of its secret, or else of
  -- the history.
  abbrev pub Launched :
      Form → Cli → Option (ℕ × ℕ) → Result LaunchError (SshConfig × PtyConfig × Conn) → Type 0
  Launched t cli size (err e) =
      (build_auth env (meaning t).0 (meaning t).1 cli ≡ err e)
      ⊎ ((a : AuthMethod) × (x : HistoryError) × (build_auth env (meaning t).0 (meaning t).1 cli
            ≡ ok a)
          × (history ≡ err x)
          × (e ≡ no_history x))
  Launched t cli size (ok r) =
      (a : AuthMethod) × (build_auth env (meaning t).0 (meaning t).1 cli ≡ ok a)
      × IsFor t cli size a r

  by_answers :
      (t : Form) (cli : Cli) (size : Option (ℕ × ℕ)) (o : Result LaunchError AuthMethod)
      (h : Result HistoryError Conn)
      → build_auth env (meaning t).0 (meaning t).1 cli ≡ o
      → history ≡ h
      → Launched t cli size (
          configured env
            (meaning t).0
            (meaning t).1
            (port_of env cli.port (meaning t).2)
            (pty_of env size)
            o
            h)
  unfolding configured new_config Config.with_port
  by_answers t cli size (err e) h q r = inl q
  by_answers t cli size (ok a) (err x) q r = inr (a, x, q, r, refl)
  by_answers t cli size (ok a) (ok conn) q r = (
    a,
    q,
    record {
      user_is = refl;
      host_is = refl;
      port_is = port_of-IsPort cli.port (meaning t).2;
      auth_is = refl;
      policy_is = default_known_hosts-IsPolicy env.known_hosts_path;
      limited = refl;
      pty_is = pty_of-FitsWindow size;
      history_is = r;
    },
  )

  launch-configured :
      (t : Form) (cli : Cli) (size : Option (ℕ × ℕ))
      → IsForm t
      → cli.target ≡ render t
      → launch env cli size history
        ≡ configured env
            (meaning t).0
            (meaning t).1
            (port_of env cli.port (meaning t).2)
            (pty_of env size)
            (build_auth env (meaning t).0 (meaning t).1 cli)
            history
  unfolding launch
  launch-configured t cli size f e =
      ap
        (λ o. elim o [
          | err x ↦ err (bad_target x)
          | ok (user, host, from_target) ↦
              configured env user host (port_of env cli.port from_target) (pty_of env size)
                (build_auth env user host cli) history
        ])
        (ap parse_target e ∙ parse_target-render t f)

  pub launch-Launched :
      (t : Form) (cli : Cli) (size : Option (ℕ × ℕ))
      → IsForm t
      → cli.target ≡ render t
      → Launched t cli size (launch env cli size history)
  launch-Launched t cli size f e =
      subst (Launched t cli size) (sym (launch-configured t cli size f e))
        (by_answers t cli size _ history refl refl)
