-- ===== src/Session/Delivery.antt =====
-- What one round of a driver posts.
use tiny_ssh.Base.{
  ◌≡◌, refl, sym, ◌∙◌, Option, none, some, List, [], ◌∷◌, ◌++◌, append-nil, append_assoc, All,
  Result-cases, inl, inr,
}
use tiny_ssh.Utf8.{Text}
use tiny_ssh.Session
use tiny_ssh.Session.{
  SessionEvent, SessionInput, connecting, authenticated, shell_open, failed, state_changed, error,
  driver_closed, disconnect,
}
use tiny_ssh.Session.Channel
use tiny_ssh.Session.Channel.{Russh, SshError, SshEvent, to_string, eof}
use tiny_ssh.Session.Relay.{IsIo, relay_of, without_errors}
use tiny_ssh.Session.Driver
use tiny_ssh.Session.Driver.{Mpsc, MpscLaws, Branch, cmd, ev, Opening, refused, no_shell, opened}

module _ (russh : Russh) (mpsc : Mpsc) (laws : MpscLaws mpsc) where
  open mpsc use {Sender, send}
  open laws use {delivered}

  -- The handle keeps its receiver.
  abbrev pub IsAttended : Type 0
  IsAttended = (tx : Sender) (e : SessionEvent) → (tx' : Sender) × (send tx e ≡ some tx')

  -- Between two senders, these events were delivered.
  pub record Delivers (tx tx' : Sender) (es : List SessionEvent) : Type 0 where
    pub delivered_is : delivered tx' ≡ delivered tx ++ es

  module _ (attended : IsAttended) where
    pub post-Delivers :
        (tx : Sender) (e : SessionEvent) → Delivers tx (Driver.post russh mpsc tx e) (e ∷ [])
    unfolding Driver.post
    post-Delivers tx e =
        let (tx', sent) = attended tx e in
        record { delivered_is = rw (Driver.post, sent) (laws.delivered-send tx tx' e sent) }

    pub then_deliver :
        {tx tx' tx'' : Sender} {es fs : List SessionEvent}
        → Delivers tx tx' es
        → Delivers tx' tx'' fs
        → Delivers tx tx'' (es ++ fs)
    then_deliver h k = record { delivered_is = k.delivered_is ∙ rw (h.delivered_is, append_assoc) }

    pub none_delivered : (tx : Sender) → Delivers tx tx []
    none_delivered tx = record { delivered_is = rw append-nil }

    abbrev pub io_of : Driver.Round russh mpsc → Driver.Io russh mpsc
    io_of (Driver.continue io) = io
    io_of (Driver.return user io) = io

    -- What one round posts: errors, and what it relays.
    pub record Posts (tx tx' : Sender) (b : Branch) : Type 0 where
      pub new : List SessionEvent
      pub posted : Delivers tx tx' new
      pub are_io : All IsIo new
      pub relayed : without_errors new ≡ relay_of b

    quiet : (tx : Sender) (b : Branch) → relay_of b ≡ [] → Posts tx tx b
    quiet tx b q = record { new = []; posted = none_delivered tx; are_io = tt; relayed = sym q }

    reported :
        (tx : Sender) (b : Branch) (msg : Text)
        → relay_of b ≡ []
        → Posts tx (Driver.post russh mpsc tx (error msg)) b
    reported tx b msg q = record {
      new = error msg ∷ [];
      posted = post-Delivers tx (error msg);
      are_io = (tt, tt);
      relayed = sym q;
    }

    on_cmd-Posts :
        (io : Driver.Io russh mpsc) (c : Option SessionInput)
        → Posts io.event_tx ((io_of (Driver.on_cmd russh mpsc io c)).event_tx) (cmd c)
    unfolding Driver.on_cmd
    on_cmd-Posts io none = quiet io.event_tx (cmd none) refl
    on_cmd-Posts io (some (SessionInput.bytes d)) =
        elim (Result-cases (Channel.write_data russh io.session d)) [
          | inl (c, q) ↦ rw (io_of, q) (quiet io.event_tx _ refl)
          | inr (e, q) ↦ rw (io_of, q) (reported io.event_tx _ (to_string e) refl)
        ]
    on_cmd-Posts io (some (SessionInput.resize cols rows)) =
        elim (Result-cases (Channel.resize_window russh io.session cols rows)) [
          | inl (c, q) ↦ rw (io_of, q) (quiet io.event_tx _ refl)
          | inr (e, q) ↦ rw (io_of, q) (reported io.event_tx _ (to_string e) refl)
        ]
    on_cmd-Posts io (some disconnect) = elim (Result-cases (Channel.close russh io.session)) [
      | inl (c, q) ↦ rw (io_of, q) (quiet io.event_tx _ refl)
      | inr (e, q) ↦ rw (io_of, q) (quiet io.event_tx _ refl)
    ]

    forward-Posts :
        (io : Driver.Io russh mpsc) (b : Branch) (e : SessionEvent)
        → IsIo e
        → without_errors (e ∷ []) ≡ relay_of b
        → Posts io.event_tx ((io_of (Driver.forward russh mpsc io e)).event_tx) b
    unfolding Driver.forward
    forward-Posts io b e h q =
        let (tx', sent) = attended io.event_tx e in
        rw (io_of, sent)
          (record {
            new = e ∷ [];
            posted = record { delivered_is = laws.delivered-send io.event_tx tx' e sent };
            are_io = (h, tt);
            relayed = q;
          })

    on_ssh_event-Posts :
        (io : Driver.Io russh mpsc) (e : Option SshEvent)
        → Posts io.event_tx ((io_of (Driver.on_ssh_event russh mpsc io e)).event_tx) (ev e)
    unfolding Driver.on_ssh_event
    on_ssh_event-Posts io none = quiet io.event_tx (ev none) refl
    on_ssh_event-Posts io (some eof) = quiet io.event_tx (ev (some eof)) refl
    on_ssh_event-Posts io (some SshEvent.closed) =
        quiet io.event_tx (ev (some SshEvent.closed)) refl
    on_ssh_event-Posts io (some (SshEvent.out d)) = forward-Posts io _ (Session.output d) tt refl
    on_ssh_event-Posts io (some (SshEvent.stderr d)) = forward-Posts io _ (Session.stderr d) tt refl
    on_ssh_event-Posts io (some (SshEvent.exit_status s)) =
        forward-Posts io _ (Session.exit_status s) tt refl

    pub round-Posts :
        (io : Driver.Io russh mpsc) (b : Branch)
        → Posts io.event_tx ((io_of (Driver.round russh mpsc io b)).event_tx) b
    unfolding Driver.round
    round-Posts io (cmd c) = on_cmd-Posts io c
    round-Posts io (ev e) = on_ssh_event-Posts io e
