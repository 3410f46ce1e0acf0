-- ===== src/MainLoop/Screen.antt =====
-- From the remote's output through the driver (crates/tiny-ssh-core/src/session.rs) and the
-- application (crates/tiny-ssh-cli/src/app.rs) to the terminal.
use tiny_ssh.Base.{
  ◌≡◌, refl, sym, ◌∙◌, ap, some, List, [], ◌∷◌, ◌++◌, append-nil, append_assoc, Bytes, Bool-cases,
  inl, inr, not,
}
use tiny_ssh.Osc.{OscEvent, prompt_start, prompt_end, command_start, command_end, cwd, scan}
use tiny_ssh.Osc.Chunks.{scan-out}
use tiny_ssh.Terminal.{Vt, VtLaws, Terminal, feed, take_osc_events}
use tiny_ssh.Terminal.Feed.{feed-append}
use tiny_ssh.Session
use tiny_ssh.Session.{
  SessionEvent, connecting, authenticated, shell_open, state_changed, output, stderr, exit_status,
  error, driver_closed,
}
use tiny_ssh.Session.Channel.{Russh, SshEvent}
use tiny_ssh.Session.Driver
use tiny_ssh.Session.Driver.{Mpsc, MpscLaws, Branch, cmd, ev, opened}
use tiny_ssh.Session.Relay.{relays, without_errors}
use tiny_ssh.Session.Delivery.{IsAttended, Delivers}
use tiny_ssh.Session.UpToEnd.{UpToEnd}
use tiny_ssh.Session.Lifecycle.{driver_task-Life}
use tiny_ssh.App.{App}
use tiny_ssh.App.Output.{
  on_osc_event, on_osc_events, handle_prompt_heuristic, on_output, on_session_event, contains,
}
use tiny_ssh.MainLoop.Mirror.{behind}

-- What events print.
abbrev pub printed : List SessionEvent → Bytes
printed [] = []
printed (output d ∷ es) = d ++ printed es
printed (stderr d ∷ es) = d ++ printed es
printed (state_changed s ∷ es) = printed es
printed (exit_status s ∷ es) = printed es
printed (error e ∷ es) = printed es
printed (driver_closed ∷ es) = printed es

-- What the remote has printed, on either stream.
abbrev pub remote_bytes : List Branch → Bytes
remote_bytes [] = []
remote_bytes (ev (some (SshEvent.out d)) ∷ bs) = d ++ remote_bytes bs
remote_bytes (ev (some (SshEvent.stderr d)) ∷ bs) = d ++ remote_bytes bs
remote_bytes (_ ∷ bs) = remote_bytes bs

printed-append : (es fs : List SessionEvent) → printed (es ++ fs) ≡ printed es ++ printed fs
printed-append [] fs = refl
printed-append (output d ∷ es) fs =
    ap (d ++◌) (printed-append es fs) ∙ sym (append_assoc d (printed es) (printed fs))
printed-append (stderr d ∷ es) fs =
    ap (d ++◌) (printed-append es fs) ∙ sym (append_assoc d (printed es) (printed fs))
printed-append (_ ∷ es) fs = printed-append es fs

printed-without_errors : (es : List SessionEvent) → printed (without_errors es) ≡ printed es
printed-without_errors [] = refl
printed-without_errors (output d ∷ es) = ap (d ++◌) (printed-without_errors es)
printed-without_errors (stderr d ∷ es) = ap (d ++◌) (printed-without_errors es)
printed-without_errors (error e ∷ es) = printed-without_errors es
printed-without_errors (_ ∷ es) = printed-without_errors es

printed-relays : (bs : List Branch) → printed (relays bs) ≡ remote_bytes bs
printed-relays [] = refl
printed-relays (ev (some (SshEvent.out d)) ∷ bs) = ap (d ++◌) (printed-relays bs)
printed-relays (ev (some (SshEvent.stderr d)) ∷ bs) = ap (d ++◌) (printed-relays bs)
printed-relays (ev (some (SshEvent.exit_status s)) ∷ bs) = printed-relays bs
printed-relays (ev (some SshEvent.eof) ∷ bs) = printed-relays bs
printed-relays (ev (some SshEvent.closed) ∷ bs) = printed-relays bs
printed-relays (_ ∷ bs) = printed-relays bs

module _ (russh : Russh) (mpsc : Mpsc) (queue : MpscLaws mpsc) where
  -- What a driver of an open shell that has ended has posted prints what the remote has, up to the
  -- end of the loop.
  pub driver_task-printed :
      IsAttended russh mpsc queue
      → (tx tx' : mpsc.Sender) (c : russh.Channel) (bs : List Branch)
      → Driver.driver_task russh mpsc tx (opened c) bs ≡ some tx'
      → (es : List SessionEvent) × (taken : List Branch) × Delivers russh mpsc queue tx tx' es
        × UpToEnd russh bs taken
        × (printed es ≡ remote_bytes taken)
  driver_task-printed attended tx tx' c bs h =
      let (es, sent, (taken, io, up_to_end, _, relayed, es_is)) =
        driver_task-Life russh mpsc queue attended tx tx' (opened c) bs h in
      let of_io : printed es ≡ printed io =
        ap printed es_is
        ∙ printed-append io (state_changed Session.closed ∷ driver_closed ∷ [])
        ∙ append-nil (printed io) in
      let all : printed es ≡ remote_bytes taken =
        of_io ∙ sym (printed-without_errors io) ∙ ap printed relayed ∙ printed-relays taken in
      (es, taken, sent, up_to_end, all)

module _ (vt : Vt) where
  -- A terminal without its pending events.
  abbrev pub quiet : Terminal vt → Terminal vt
  quiet t = record t { pending_osc = [] }

  quiet-feed :
      (t : Terminal vt) (bytes : Bytes) → quiet (feed vt (quiet t) bytes) ≡ quiet (feed vt t bytes)
  unfolding feed
  quiet-feed t bytes =
      let same = scan-out bytes t.osc_scanner t.pending_osc in
      let scanner : (scan t.osc_scanner bytes []).0 ≡ (scan t.osc_scanner bytes t.pending_osc).0 =
        sym (ap (λ p. p.0) same) in
      ap (λ s. record (quiet (feed vt t bytes)) { osc_scanner = s }) scanner

  on_osc_events-terminal :
      (es : List OscEvent) (app : App vt) → (on_osc_events vt app es).terminal ≡ app.terminal
  unfolding on_osc_events on_osc_event
  on_osc_events-terminal [] app = refl
  on_osc_events-terminal (prompt_start ∷ es) app = on_osc_events-terminal es app
  on_osc_events-terminal (prompt_end ∷ es) app =
      on_osc_events-terminal es (on_osc_event vt app prompt_end)
  on_osc_events-terminal (command_start ∷ es) app =
      on_osc_events-terminal es (on_osc_event vt app command_start)
  on_osc_events-terminal (command_end ∷ es) app = on_osc_events-terminal es app
  on_osc_events-terminal (cwd p ∷ es) app = on_osc_events-terminal es (on_osc_event vt app (cwd p))

  handle_prompt_heuristic-terminal :
      (app : App vt) (bytes : Bytes)
      → (handle_prompt_heuristic vt app bytes).terminal ≡ app.terminal
  unfolding handle_prompt_heuristic
  handle_prompt_heuristic-terminal app bytes = elim (Bool-cases (not app.last_input_was_enter)) [
    | inl t ↦ rw t refl
    | inr t ↦
        rw t
          (elim (Bool-cases (not (contains b'\n' bytes))) [ inl u ↦ rw u refl | inr u ↦ rw u refl ])
  ]

  pub on_output-terminal :
      (app : App vt) (bytes : Bytes)
      → (on_output vt app bytes).terminal ≡ quiet (feed vt app.terminal bytes)
  unfolding on_output take_osc_events
  on_output-terminal app bytes =
      handle_prompt_heuristic-terminal _ bytes ∙ on_osc_events-terminal _ _

  module _ (laws : VtLaws vt) (russh : Russh) where
    quiet-feed_nil : (t : Terminal vt) → quiet (feed vt t []) ≡ quiet t
    unfolding feed scan
    quiet-feed_nil t = rw (laws.advance_nil t.parser t.inner) refl

    -- Output that is handled, and then more.
    fed_twice :
        (app app' : App vt) (d rest : Bytes)
        → app'.terminal ≡ quiet (feed vt app.terminal d)
        → quiet (feed vt app'.terminal rest) ≡ quiet (feed vt app.terminal (d ++ rest))
    fed_twice app app' d rest e =
        ap (λ t. quiet (feed vt t rest)) e
        ∙ quiet-feed (feed vt app.terminal d) rest
        ∙ ap quiet (sym (feed-append vt laws app.terminal d rest))

    -- Handling events feeds the terminal what they print.
    behind-printed :
        (es : List SessionEvent) (app : App vt)
        → quiet (behind vt russh app es).terminal ≡ quiet (feed vt app.terminal (printed es))
    unfolding on_session_event
    behind-printed [] app = sym (quiet-feed_nil app.terminal)
    behind-printed (output d ∷ es) app =
        behind-printed es (on_output vt app d)
        ∙ fed_twice app (on_output vt app d) d (printed es) (on_output-terminal app d)
    behind-printed (stderr d ∷ es) app =
        behind-printed es (on_output vt app d)
        ∙ fed_twice app (on_output vt app d) d (printed es) (on_output-terminal app d)
    behind-printed (state_changed s ∷ es) app =
        behind-printed es (on_session_event vt app (state_changed s))
    behind-printed (exit_status s ∷ es) app = behind-printed es app
    behind-printed (error e ∷ es) app = behind-printed es (on_session_event vt app (error e))
    behind-printed (driver_closed ∷ es) app =
        behind-printed es (on_session_event vt app driver_closed)

    module _ (mpsc : Mpsc) (queue : MpscLaws mpsc) where
      -- While the handle keeps its receiver: once the driver of an open shell has ended, and the
      -- application has handled what it has posted, the terminal and the OSC scanner are as if they
      -- had been fed at once all that the remote printed up to the end, on both streams, in order. The
      -- end is the first branch in which the user disconnects, the handle is dropped, or the channel
      -- is closed or drained, or a command before that whose bytes the channel can refuse.
      pub driver_task-fed :
          IsAttended russh mpsc queue
          → (tx tx' : mpsc.Sender) (c : russh.Channel) (bs : List Branch) (app : App vt)
          → Driver.driver_task russh mpsc tx (opened c) bs ≡ some tx'
          → (es : List SessionEvent) × (taken : List Branch) × Delivers russh mpsc queue tx tx' es
            × UpToEnd russh bs taken
            × (quiet (behind vt russh app es).terminal
                ≡ quiet (feed vt app.terminal (remote_bytes taken)))
      driver_task-fed attended tx tx' c bs app h =
          let (es, taken, sent, up_to_end, all) =
            driver_task-printed russh mpsc queue attended tx tx' c bs h in
          (
            es,
            taken,
            sent,
            up_to_end,
            behind-printed es app ∙ ap (λ b. quiet (feed vt app.terminal b)) all,
          )
