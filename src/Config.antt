-- ===== src/Config.antt =====
-- `AuthMethod`, `SshConfig` and `PtyConfig` of
-- crates/tiny-ssh-core/src/transport/ssh/config.rs, and what `{:?}` writes of them. Durations are in
-- seconds; `Debug` of other types is a parameter.
pub mod Secret
pub mod Tests
use tiny_ssh.Base.{ℕ, Option, none, some, ◌++◌, codes}
use tiny_ssh.Utf8.{Text}
use tiny_ssh.HostKey.{HostKeyPolicy, default_known_hosts}

-- The wrapper `Zeroizing` is left out: it scrubs memory.
pub data AuthMethod : Type 0 where
  password : Text → AuthMethod
  public_key : Text → Option Text → AuthMethod

pub record SshConfig : Type 0 where
  pub host : Text
  pub port : ℕ
  pub user : Text
  pub auth : AuthMethod
  pub host_key_policy : HostKeyPolicy
  pub connect_timeout : Option ℕ

-- `SshConfig::new`, with the path for known hosts that `ProjectDirs` answers.
unfoldable pub new_config : Option Text → Text → Text → AuthMethod → SshConfig
new_config known_hosts_path host user auth = record {
  host = host;
  port = 22;
  user = user;
  auth = auth;
  host_key_policy = default_known_hosts known_hosts_path;
  connect_timeout = some 15;
}

unfoldable pub with_port : SshConfig → ℕ → SshConfig
with_port config port = record config { port = port }

pub record PtyConfig : Type 0 where
  pub term : Text
  pub cols : ℕ
  pub rows : ℕ

-- `PtyConfig::default`.
unfoldable pub default_pty : PtyConfig
default_pty = record { term = codes "xterm-256color"; cols = 80; rows = 24 }

-- `Debug` of texts, paths, numbers, policies and durations.
pub record Debug : Type 0 where
  pub debug_text : Text → Text
  pub debug_path : Text → Text
  pub debug_number : ℕ → Text
  pub debug_policy : HostKeyPolicy → Text
  pub debug_duration : Option ℕ → Text

module _ (d : Debug) where
  open d use {debug_text, debug_path, debug_number, debug_policy, debug_duration}

  -- `passphrase.as_ref().map(|_| "<redacted>")`.
  unfoldable pub redacted : Option Text → Text
  redacted none = codes "None"
  redacted (some p) = codes "Some(" ++ (debug_text (codes "<redacted>") ++ codes ")")

  unfoldable pub debug_auth : AuthMethod → Text
  debug_auth (password pw) = codes "Password(" ++ (debug_text (codes "<redacted>") ++ codes ")")
  debug_auth (public_key path passphrase) =
      codes "PublicKey { path: "
      ++ (debug_path path ++ (codes ", passphrase: " ++ (redacted passphrase ++ codes " }")))

  -- The derived `Debug` of `SshConfig`.
  unfoldable pub debug_config : SshConfig → Text
  debug_config c =
      codes "SshConfig { host: "
      ++ (debug_text c.host
          ++ (codes ", port: "
              ++ (debug_number c.port
                  ++ (codes ", user: "
                      ++ (debug_text c.user
                          ++ (codes ", auth: "
                              ++ (debug_auth c.auth
                                  ++ (codes ", host_key_policy: "
                                      ++ (debug_policy c.host_key_policy
                                          ++ (codes ", connect_timeout: "
                                              ++ (debug_duration c.connect_timeout
                                                  ++ codes " }")))))))))))
