-- ===== src/Client/Tests.antt =====
-- A server that takes one password and no key.
use tiny_ssh.Base.{◌≡◌, refl, false, some, [], codes, equal, ok, err}
use tiny_ssh.Utf8.{Text}
use tiny_ssh.HostKey.{accept_any}
use tiny_ssh.Session.Channel.{auth_rejected}
use tiny_ssh.Session.Tests.{wire}
use tiny_ssh.Config.{password, SshConfig}
use tiny_ssh.Client.{Transport, connect_client, await_handle, authenticate, and_then, if_accepted}
use tiny_ssh.Client.Outcome.{Cause, attempt, connect_client-Cause}

abbrev server : Transport wire
server = record {
  Attempt = Text;
  Handle = Text;
  SecretKey = Text;
  start = λ host port handler. host;
  run = λ host. ok host;
  timeout = λ d host. some (ok host);
  display_duration = λ d. codes "15s";
  authenticate_password = λ h user pw. ok (equal pw (codes "secret"));
  load_secret_key = λ path pass. err (codes "no such file");
  authenticate_publickey = λ h user key. ok false;
  channel_open_session = λ h. ok [];
  request_pty = λ c term cols rows. ok c;
  request_shell = λ c. ok c;
  disconnect_by_application = λ h description language. ok tt;
}

abbrev config : SshConfig
config = record {
  host = codes "box";
  port = 22;
  user = codes "root";
  auth = password (codes "guess");
  host_key_policy = accept_any;
  connect_timeout = some 15;
}

guess_rejected : connect_client wire server config ≡ err auth_rejected
unfolding connect_client await_handle authenticate and_then if_accepted equal
guess_rejected = refl

connect_client-Cause_example :
    Cause wire server
      (some 15)
      (attempt wire server config)
      (codes "root")
      (password (codes "guess"))
      (connect_client wire server config)
connect_client-Cause_example = connect_client-Cause wire server config
