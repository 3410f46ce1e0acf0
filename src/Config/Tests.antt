-- ===== src/Config/Tests.antt =====
-- A `Debug` that writes texts between quotes.
use tiny_ssh.Base.{◌≡◌, ◌++◌, [], ◌∷◌, none, codes}
use tiny_ssh.HostKey.{accept_any}
use tiny_ssh.Config.{Debug, SshConfig, password, debug_config}
use tiny_ssh.Config.Secret.{debug_config-Alike}

abbrev quoted : Debug
quoted = record {
  debug_text = λ t. b'"' ∷ (t ++ b'"' ∷ []);
  debug_path = λ t. b'"' ∷ (t ++ b'"' ∷ []);
  debug_number = λ n. n ∷ [];
  debug_policy = λ p. codes "AcceptAny";
  debug_duration = λ d. codes "None";
}

abbrev config : SshConfig
config = record {
  host = codes "example.com";
  port = 22;
  user = codes "u";
  auth = password (codes "hunter2-very-secret");
  host_key_policy = accept_any;
  connect_timeout = none;
}

debug_config-Alike_example :
    debug_config quoted config ≡ debug_config quoted (record config { auth = password [] })
debug_config-Alike_example = debug_config-Alike quoted config (password []) tt
