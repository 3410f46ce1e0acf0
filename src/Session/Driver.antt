-- ===== src/Session/Driver.antt =====
-- `driver_task` and `io_loop` of crates/tiny-ssh-core/src/session.rs. The queue of events is the
-- parameter `Mpsc`. Each round of `tokio::select!` is one `Branch`, in the order in which they
-- become ready; what `connect` and `open_shell` answer is given.
use tiny_ssh.Base.{◌≡◌, ◌++◌, Bool, true, false, Option, none, some, List, [], ◌∷◌, ok, err}
use tiny_ssh.Session
use tiny_ssh.Session.{
  SessionState, SessionEvent, SessionInput, connecting, authenticated, shell_open, failed,
  state_changed, error, driver_closed, disconnect,
}
use tiny_ssh.Session.Channel
use tiny_ssh.Session.Channel.{Russh, SshEvent, SshError, to_string, eof}

-- A sender of `tokio::sync::mpsc`: `None` says that the receiver is gone.
pub record Mpsc : Type 1 where
  pub Sender : Type 0
  pub send : Sender → SessionEvent → Option Sender

-- What a sender has delivered.
pub record MpscLaws (mpsc : Mpsc) : Type 0 where
  pub delivered : mpsc.Sender → List SessionEvent
  pub delivered-send :
      (tx tx' : mpsc.Sender) (ev : SessionEvent)
      → mpsc.send tx ev ≡ some tx'
      → delivered tx' ≡ delivered tx ++ ev ∷ []

-- What `select!` waits for: a command, or `None` once the handle is dropped; an event of the
-- remote, or `None` once the channel is drained.
pub data Branch : Type 0 where
  cmd : Option SessionInput → Branch
  ev : Option SshEvent → Branch

-- What `connect` and `open_shell` answer: a channel to the shell, or the error of either.
pub data Opening (russh : Russh) : Type 0 where
  refused : SshError → Opening russh
  no_shell : SshError → Opening russh
  opened : russh.Channel → Opening russh

module _ (russh : Russh) (mpsc : Mpsc) where
  open mpsc use {Sender, send}

  pub record Io : Type 0 where
    pub session : russh.Channel
    pub event_tx : Sender

  -- A round goes on, or the loop returns whether the user has disconnected.
  pub data Round : Type 0 where
    continue : Io → Round
    return : Bool → Io → Round

  -- `let _ = event_tx.send(…)`.
  unfoldable pub post : Sender → SessionEvent → Sender
  post tx e = elim (send tx e) [ some tx' ↦ tx' | none ↦ tx ]

  -- The branch of a command.
  unfoldable pub on_cmd : Io → Option SessionInput → Round
  on_cmd io none = return false io
  on_cmd io (some (SessionInput.bytes d)) = elim (Channel.write_data russh io.session d) [
    | ok c ↦ continue (record io { session = c })
    | err e ↦ return false (record io { event_tx = post io.event_tx (error (to_string e)) })
  ]
  on_cmd io (some (SessionInput.resize cols rows)) =
      elim (Channel.resize_window russh io.session cols rows) [
        | ok c ↦ continue (record io { session = c })
        | err e ↦ continue (record io { event_tx = post io.event_tx (error (to_string e)) })
      ]
  on_cmd io (some disconnect) = elim (Channel.close russh io.session) [
    | ok c ↦ return true (record io { session = c })
    | err e ↦ return true io
  ]

  -- `if event_tx.send(…).await.is_err() { return false; }`.
  unfoldable pub forward : Io → SessionEvent → Round
  forward io e = elim (send io.event_tx e) [
    | some tx ↦ continue (record io { event_tx = tx })
    | none ↦ return false io
  ]

  -- The branch of a remote event.
  unfoldable pub on_ssh_event : Io → Option SshEvent → Round
  on_ssh_event io none = return false io
  on_ssh_event io (some eof) = continue io
  on_ssh_event io (some SshEvent.closed) = return false io
  on_ssh_event io (some (SshEvent.out d)) = forward io (Session.output d)
  on_ssh_event io (some (SshEvent.stderr d)) = forward io (Session.stderr d)
  on_ssh_event io (some (SshEvent.exit_status s)) = forward io (Session.exit_status s)

  unfoldable pub round : Io → Branch → Round
  round io (cmd c) = on_cmd io c
  round io (ev e) = on_ssh_event io e

  -- `None`: the loop still waits once the branches are used up.
  unfoldable pub io_loop : Io → List Branch → Option (Bool × Io)
  io_loop io [] = none
  io_loop io (b ∷ bs) = elim (round io b) [
    | return user io' ↦ some (user, io')
    | continue io' ↦ io_loop io' bs
  ]

  -- The events before the end of a driver that has failed.
  unfoldable pub post_failure : Sender → SshError → Sender
  post_failure tx e = post (post tx (error (to_string e))) (state_changed (failed (to_string e)))

  -- Behind the loop.
  unfoldable pub finish : Option (Bool × Io) → Option Sender
  finish none = none
  finish (some (user, io)) =
      some (post (post io.event_tx (state_changed SessionState.closed)) driver_closed)

  -- `None` if the driver still runs; `client.disconnect()` sends no event.
  unfoldable pub driver_task : Sender → Opening russh → List Branch → Option Sender
  driver_task tx opening branches = elim opening [
    | refused e ↦ some (post (post_failure (post tx (state_changed connecting)) e) driver_closed)
    | no_shell e ↦ some (
        post
          (post_failure (post (post tx (state_changed connecting)) (state_changed authenticated)) e)
          driver_closed)
    | opened c ↦ finish (
        io_loop
          (record {
            session = c;
            event_tx =
                post (post (post tx (state_changed connecting)) (state_changed authenticated))
                  (state_changed shell_open);
          })
          branches)
  ]
