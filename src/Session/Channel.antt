-- ===== src/Session/Channel.antt =====
-- `SshSession` of crates/tiny-ssh-core/src/transport/ssh/session.rs over a channel of `russh`, which
-- is the parameter `Russh`, and `SshError` of transport/ssh/error.rs. An error of `russh` is its
-- message.
use tiny_ssh.Base.{
  ◌==◌, if◌then◌else◌, ℕ, Option, none, some, List, [], ◌∷◌, ◌++◌, Bytes, codes, Result, ok, err,
}
use tiny_ssh.Utf8.{Text}

-- The messages of a channel that `next_event` tells apart; `request_reply` stands for the others.
pub data ChannelMsg : Type 0 where
  data_msg : Bytes → ChannelMsg
  extended_data : Bytes → ℕ → ChannelMsg
  eof_msg close_msg request_reply : ChannelMsg
  exit_status_msg : ℕ → ChannelMsg

pub record Russh : Type 1 where
  pub Channel : Type 0
  pub data_ : Channel → Bytes → Result Text Channel
  pub window_change : Channel → ℕ → ℕ → Result Text Channel
  pub close_ : Channel → Result Text Channel

-- `out` is `Data`.
pub data SshEvent : Type 0 where
  out : Bytes → SshEvent
  stderr : Bytes → SshEvent
  eof closed : SshEvent
  exit_status : ℕ → SshEvent

pub data SshError : Type 0 where
  connect auth channel_open pty shell write resize other : Text → SshError
  auth_rejected closed : SshError
  key_load : Text → Text → SshError
  connect_timeout : Text → SshError

-- `to_string`; a duration is given as it is printed.
unfoldable pub to_string : SshError → Text
to_string (connect e) = codes "connection failed: " ++ e
to_string auth_rejected = codes "authentication rejected by server"
to_string (auth e) = codes "authentication error: " ++ e
to_string (key_load path e) =
    codes "failed to load private key from " ++ (path ++ (codes ": " ++ e))
to_string (channel_open e) = codes "failed to open channel: " ++ e
to_string (pty e) = codes "PTY request failed: " ++ e
to_string (shell e) = codes "shell request failed: " ++ e
to_string (write e) = codes "write failed: " ++ e
to_string (resize e) = codes "resize failed: " ++ e
to_string (connect_timeout d) = codes "connect timed out after " ++ d
to_string closed = codes "session is already closed"
to_string (other e) = codes "ssh error: " ++ e

-- `map_err`.
abbrev pub map_err {ℓ} : {A : Type ℓ} → (Text → SshError) → Result Text A → Result SshError A
map_err f (ok a) = ok a
map_err f (err e) = err (f e)

-- The `match msg`: `None` goes on to the next message.
unfoldable pub event_of : ChannelMsg → Option SshEvent
event_of (data_msg d) = some (out d)
event_of (extended_data d ext) = if ext == 1 then some (stderr d) else none
event_of eof_msg = some eof
event_of (exit_status_msg s) = some (exit_status s)
event_of close_msg = some closed
event_of request_reply = none

-- `next_event` on the messages that are still to come, and those that it leaves.
unfoldable pub next_event : List ChannelMsg → Option SshEvent × List ChannelMsg
next_event [] = (none, [])
next_event (msg ∷ msgs) =
    let later = next_event msgs in elim (event_of msg) [ some ev ↦ (some ev, msgs) | none ↦ later ]

module _ (russh : Russh) where
  open russh use {Channel, data_, window_change, close_}

  unfoldable pub write_data : Channel → Bytes → Result SshError Channel
  write_data c d = map_err write (data_ c d)

  unfoldable pub resize_window : Channel → ℕ → ℕ → Result SshError Channel
  resize_window c cols rows = map_err resize (window_change c cols rows)

  unfoldable pub close : Channel → Result SshError Channel
  close c = map_err other (close_ c)
