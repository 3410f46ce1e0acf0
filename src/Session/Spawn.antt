-- ===== src/Session/Spawn.antt =====
-- `spawn`, `SessionId`, and what `SessionHandle` does with its driver, of
-- crates/tiny-ssh-core/src/session.rs. Tasks and channels of tokio are the parameter `Runtime`.
use tiny_ssh.Base.{ℕ, ◌+◌, ◌%◌, ◌^◌, Option, none, some, ◌∷◌, Result, ok, err}
use tiny_ssh.Utf8.{Text}
use tiny_ssh.Decimal
use tiny_ssh.Config.{SshConfig, PtyConfig}
use tiny_ssh.Session.{SessionEvent}
use tiny_ssh.Session.Handle.{Commands, SessionError, panic}

-- A task that runs `driver_task`, the receiver of its events, and the sender of its commands.
-- `join` answers the message of a task that has panicked.
pub record Runtime (commands : Commands) : Type 1 where
  pub Task : Type 0
  pub Events : Type 0
  pub start : SshConfig → PtyConfig → commands.Handle × Events × Task
  pub recv : Events → Option SessionEvent × Events
  pub join : Task → Result Text (Unit {0})

pub record SessionId : Type 0 where
  pub number : ℕ

-- The counter, and the one behind it; `fetch_add` wraps on `u64`.
unfoldable pub next_id : ℕ → SessionId × ℕ
next_id counter = (record { number = counter }, (counter + 1) % 2 ^ 64)

unfoldable pub display_id : SessionId → Text
display_id id = b'S' ∷ Decimal.display id.number

pub record HostFingerprint : Type 0 where
  pub uname : Option Text
  pub os_release : Option Text
  pub shell : Option Text

abbrev pub no_fingerprint : HostFingerprint
no_fingerprint = record { uname = none; os_release = none; shell = none }

pub record SessionMeta : Type 0 where
  pub id : SessionId
  pub host : Text
  pub user : Text
  pub fingerprint : HostFingerprint

module _ (commands : Commands) (runtime : Runtime commands) where
  open runtime use {Task, Events, start, recv, join}

  pub record SessionHandle : Type 0 where
    pub meta : SessionMeta
    pub input : commands.Handle
    pub events : Events
    pub driver : Option Task

  -- The handle, and the counter of ids.
  unfoldable pub spawn : SshConfig → PtyConfig → ℕ → SessionHandle × ℕ
  spawn config pty counter =
      let (id, counter') = next_id counter in
      let (input_tx, event_rx, driver) = start config pty in
      (
        record {
          meta = record {
            id = id;
            host = config.host;
            user = config.user;
            fingerprint = no_fingerprint;
          };
          input = input_tx;
          events = event_rx;
          driver = some driver;
        },
        counter',
      )

  unfoldable pub receive : SessionHandle → Option SessionEvent × SessionHandle
  receive h = let (e, events) = recv h.events in (e, record h { events = events })

  -- `take` empties the handle before the task is awaited.
  unfoldable pub wait : SessionHandle → Result SessionError (Unit {0}) × SessionHandle
  wait h = elim h.driver [
    | none ↦ (ok tt, h)
    | some driver ↦
        (elim (join driver) [ ok u ↦ ok tt | err e ↦ err (panic e) ], record h { driver = none })
  ]

  -- The task that `drop` aborts.
  unfoldable pub dropped : SessionHandle → Option Task
  dropped h = h.driver
