-- ===== src/Session/Handle.antt =====
-- `SessionHandle` of crates/tiny-ssh-core/src/session.rs: the user's side of a session. The queue
-- of commands to the driver is the parameter `Commands`.
use tiny_ssh.Base.{ℕ, Option, none, some, Bytes, codes, Result, ok, err, ◌++◌}
use tiny_ssh.Utf8.{Text}
use tiny_ssh.Session.{SessionInput, bytes, resize, disconnect}
use tiny_ssh.Session.Channel.{SshError}
use tiny_ssh.Session.Channel

-- A sender of `tokio::sync::mpsc`: `None` says that the driver is gone.
pub record Commands : Type 1 where
  pub Handle : Type 0
  pub send : Handle → SessionInput → Option Handle

pub data SessionError : Type 0 where
  detached : SessionError
  ssh : SshError → SessionError
  panic : Text → SessionError

unfoldable pub to_string : SessionError → Text
to_string detached = codes "session driver has terminated"
to_string (ssh e) = codes "ssh error: " ++ Channel.to_string e
to_string (panic e) = codes "driver task panicked: " ++ e

-- `map_err(|_| SessionError::Detached)`.
abbrev pub or_detached : {A : Type 0} → Option A → Result SessionError A
or_detached none = err detached
or_detached (some a) = ok a

module _ (commands : Commands) where
  open commands use {Handle, send}

  unfoldable pub send_bytes : Handle → Bytes → Result SessionError Handle
  send_bytes h d = or_detached (send h (bytes d))

  unfoldable pub request_resize : Handle → ℕ → ℕ → Result SessionError Handle
  request_resize h cols rows = or_detached (send h (resize cols rows))

  unfoldable pub request_disconnect : Handle → Result SessionError Handle
  request_disconnect h = or_detached (send h disconnect)
