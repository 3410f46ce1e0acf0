-- ===== src/Session.antt =====
-- crates/tiny-ssh-core/src/session.rs and transport/ssh/session.rs: the events of a session, the
-- channel to the remote shell, and the driver task between them.
pub mod Channel
pub mod Driver
pub mod Handle
pub mod Spawn
pub mod Relay
pub mod Delivery
pub mod Lifecycle
pub mod Ending
pub mod UpToEnd
pub mod Written
pub mod Tests
use tiny_ssh.Base.{ℕ, Bytes}
use tiny_ssh.Utf8.{Text}

pub data SessionState : Type 0 where
  connecting authenticated shell_open closed : SessionState
  failed : Text → SessionState

-- `Closed` of the source's `SessionEvent` is `driver_closed`.
pub data SessionEvent : Type 0 where
  state_changed : SessionState → SessionEvent
  output : Bytes → SessionEvent
  stderr : Bytes → SessionEvent
  exit_status : ℕ → SessionEvent
  error : Text → SessionEvent
  driver_closed : SessionEvent

pub data SessionInput : Type 0 where
  bytes : Bytes → SessionInput
  resize : ℕ → ℕ → SessionInput
  disconnect : SessionInput
