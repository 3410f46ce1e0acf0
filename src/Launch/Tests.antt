-- ===== src/Launch/Tests.antt =====
-- Command lines in an environment with one variable.
use tiny_ssh.Base.{none, some, codes, equal, if◌then◌else◌, err, ok, ℕ, Result}
use tiny_ssh.History.{HistoryError}
use tiny_ssh.Target.Forms.{Form, ported, render}
use tiny_ssh.Launch.{Cli, Environment}

abbrev pub env : Environment
env = record {
  var = λ v. if equal v (codes "PW") then some (codes "secret") else none;
  prompt_password = λ message. err (codes "no terminal");
  known_hosts_path = some (codes "/k");
}

abbrev pub form : Form
form = ported (codes "root") (codes "box") 2222

abbrev pub cli : Cli
cli = record {
  target = render form;
  port = none;
  key = none;
  password_env = some (codes "PW");
  passphrase_env = none;
}

-- The history opens.
abbrev history : Result HistoryError ℕ
history = ok 7
