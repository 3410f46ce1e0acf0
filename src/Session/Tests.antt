-- ===== src/Session/Tests.antt =====
-- Sessions over a channel that takes all bytes and no change of its size, and a queue that keeps
-- what it is given.
use tiny_ssh.Base.{
  ◌≡◌, ◌-◌, ◌^◌, refl, none, some, List, [], ◌∷◌, ◌++◌, Bytes, codes, ok, err, Bool,
}
use tiny_ssh.Decimal
use tiny_ssh.Session.Spawn.{next_id, display_id}
use tiny_ssh.Session
use tiny_ssh.Session.{
  SessionEvent, SessionInput, connecting, authenticated, shell_open, state_changed, error,
  driver_closed, disconnect,
}
use tiny_ssh.Session.Channel
use tiny_ssh.Session.Channel.{
  Russh, SshEvent, data_msg, extended_data, request_reply, close_msg, next_event, event_of,
  to_string,
}
use tiny_ssh.Session.Driver
use tiny_ssh.Session.Driver.{Mpsc, MpscLaws, Branch, cmd, ev, Opening, opened, driver_task}
use tiny_ssh.Session.Delivery.{Delivers}
use tiny_ssh.Session.Lifecycle.{Life, driver_task-Life}
use tiny_ssh.Session.Ending.{driver_task-ends}
use tiny_ssh.Session.Written.{RusshLaws, Loop, io_loop-returns}

-- A channel by the bytes written to it.
abbrev pub wire : Russh
wire = record {
  Channel = Bytes;
  data_ = λ c d. ok (c ++ d);
  window_change = λ c cols rows. err (codes "no pty");
  close_ = λ c. ok c;
}

abbrev pub queue : Mpsc
queue = record { Sender = List SessionEvent; send = λ es e. some (es ++ e ∷ []) }

pub queue-MpscLaws : MpscLaws queue
queue-MpscLaws = record { delivered = λ es. es; delivered-send = λ tx tx' e h. cc }

abbrev pub branches : List Branch
branches =
    ev (some (SshEvent.out (codes "$ ")))
    ∷ cmd (some (SessionInput.bytes (codes "ls")))
    ∷ cmd (some (SessionInput.resize 80 24))
    ∷ ev (some (SshEvent.stderr (codes "x")))
    ∷ cmd (some disconnect)
    ∷ []

abbrev pub posted : List SessionEvent
posted =
    state_changed connecting
    ∷ state_changed authenticated
    ∷ state_changed shell_open
    ∷ Session.output (codes "$ ")
    ∷ error (codes "resize failed: no pty")
    ∷ Session.stderr (codes "x")
    ∷ state_changed Session.closed
    ∷ driver_closed
    ∷ []

pub driver_task_run : driver_task wire queue [] (opened []) branches ≡ some posted
unfolding driver_task Driver.finish Driver.io_loop Driver.round Driver.on_cmd Driver.on_ssh_event
    Driver.forward Driver.post Channel.write_data Channel.resize_window Channel.close to_string
driver_task_run = refl

driver_task-Life_example :
    (es : List SessionEvent) × Delivers wire queue queue-MpscLaws [] posted es
    × Life wire queue queue-MpscLaws (opened []) branches es
driver_task-Life_example =
    driver_task-Life wire queue queue-MpscLaws (λ tx e. (tx ++ e ∷ [], refl)) [] posted (opened [])
      branches driver_task_run

driver_task-ends_example :
    (tx' : List SessionEvent) × (driver_task wire queue []
        (opened [])
        ((ev (some SshEvent.eof) ∷ []) ++ (ev none ∷ []))
      ≡ some tx')
driver_task-ends_example =
    driver_task-ends wire queue [] (opened []) (ev (some SshEvent.eof) ∷ []) (ev none) [] tt

next_event_skips :
    next_event (request_reply ∷ extended_data (codes "a") 2 ∷ extended_data (codes "b") 1 ∷ [])
    ≡ (some (SshEvent.stderr (codes "b")), [])
unfolding next_event event_of
next_event_skips = refl

-- A wire has taken what it holds.
abbrev pub wire_laws : RusshLaws wire
wire_laws = record {
  written = λ c. c;
  written-data = λ c c' d h. cc;
  written-window_change = λ c c' cols rows h. cc;
  written-close = λ c c' h. cc;
}

abbrev typing : List Branch
typing =
    cmd (some (SessionInput.bytes (codes "l")))
    ∷ ev (some (SshEvent.out (codes "l")))
    ∷ cmd (some (SessionInput.bytes (codes "s")))
    ∷ []

abbrev started : Driver.Io wire queue
started = record { session = codes "#"; event_tx = [] }

io_loop-returns_example :
    (user : Bool) × (io' : Driver.Io wire queue) × (Driver.io_loop wire queue started
        (typing ++ cmd (some disconnect) ∷ [])
      ≡ some (user, io'))
    × Loop wire queue wire_laws started (typing ++ cmd (some disconnect) ∷ []) user io'
io_loop-returns_example =
    io_loop-returns wire queue wire_laws typing (cmd (some disconnect)) [] started tt

-- The third session, and the one behind the last id.
third_id : display_id ((next_id 3).0) ≡ codes "S3"
unfolding display_id next_id Decimal.display
third_id = refl

last_id : (next_id (2 ^ 64 - 1)).1 ≡ 0
unfolding next_id
last_id = refl
