-- ===== src/Session/Written.antt =====
-- What the driver of crates/tiny-ssh-core/src/session.rs writes to the channel.
use tiny_ssh.Base.{
  ◌≡◌, ◌↔◌, refl, sym, ◌∙◌, ap, subst, Bool, true, none, some, List, [], ◌∷◌, ◌++◌, append-nil,
  append_assoc, Bytes, Result-cases, Option-cases, inl, inr, ok, ℕ,
}
use tiny_ssh.Session
use tiny_ssh.Session.{SessionInput, SessionEvent, disconnect}
use tiny_ssh.Session.Channel
use tiny_ssh.Session.Channel.{Russh, SshEvent}
use tiny_ssh.Session.Driver
use tiny_ssh.Session.Driver.{Mpsc, Branch, cmd, ev}
use tiny_ssh.Session.Ending.{Stops, value_of, after_round, io_loop-ends, IsReturn, round-Stops}

-- What a channel has taken: data that is sent is taken behind the rest, and a new size or the close
-- of the channel takes nothing away.
pub record RusshLaws (russh : Russh) : Type 0 where
  pub written : russh.Channel → Bytes
  pub written-data :
      (c c' : russh.Channel) (d : Bytes) → russh.data_ c d ≡ ok c' → written c' ≡ written c ++ d
  pub written-window_change :
      (c c' : russh.Channel) (cols rows : ℕ)
      → russh.window_change c cols rows ≡ ok c'
      → written c' ≡ written c
  pub written-close : (c c' : russh.Channel) → russh.close_ c ≡ ok c' → written c' ≡ written c

abbrev pub input_of : Branch → Bytes
input_of (cmd (some (SessionInput.bytes d))) = d
input_of _ = []

-- What the user has sent.
abbrev pub inputs : List Branch → Bytes
inputs [] = []
inputs (b ∷ bs) = input_of b ++ inputs bs

-- The user asks for the end.
abbrev pub IsDisconnect : Branch → Type 0
IsDisconnect (cmd (some disconnect)) = Unit
IsDisconnect _ = ⊥

module _ (russh : Russh) (mpsc : Mpsc) (laws : RusshLaws russh) where
  open mpsc use {Sender, send}
  open laws use {written}

  -- A round that goes on has written its input, and one that returns has written nothing.
  abbrev Wrote : Branch → Driver.Io russh mpsc → Driver.Round russh mpsc → Type 0
  Wrote b io (Driver.continue io') = written io'.session ≡ written io.session ++ input_of b
  Wrote b io (Driver.return user io') =
      (written io'.session ≡ written io.session) × ((user ≡ true) ↔ IsDisconnect b)

  forward-Wrote :
      (io : Driver.Io russh mpsc) (s : SshEvent) (e : SessionEvent)
      → Wrote (ev (some s)) io (Driver.forward russh mpsc io e)
  unfolding Driver.forward
  forward-Wrote io s e = elim (Option-cases (send io.event_tx e)) [
    | inl n ↦ rw (Wrote, n) (refl, ((λ q. cc), λ q. elim q [ ]))
    | inr (tx, q) ↦ rw (Wrote, q) (sym (append-nil (written io.session)))
  ]

  round-Wrote : (io : Driver.Io russh mpsc) (b : Branch) → Wrote b io (Driver.round russh mpsc io b)
  unfolding Driver.round Driver.on_cmd Driver.on_ssh_event Channel.write_data Channel.resize_window
      Channel.close
  round-Wrote io (cmd none) = (refl, ((λ q. cc), λ q. elim q [ ]))
  round-Wrote io (cmd (some (SessionInput.bytes d))) =
      elim (Result-cases (russh.data_ io.session d)) [
        | inl (c, q) ↦ rw (Wrote, q) (laws.written-data io.session c d q)
        | inr (e, q) ↦ rw (Wrote, q) (refl, ((λ q. cc), λ q. elim q [ ]))
      ]
  round-Wrote io (cmd (some (SessionInput.resize cols rows))) =
      elim (Result-cases (russh.window_change io.session cols rows)) [
        | inl (c, q) ↦
            rw (Wrote, q)
              (laws.written-window_change io.session c cols rows q
                ∙ sym (append-nil (written io.session)))
        | inr (e, q) ↦ rw (Wrote, q) (sym (append-nil (written io.session)))
      ]
  round-Wrote io (cmd (some disconnect)) = elim (Result-cases (russh.close_ io.session)) [
    | inl (c, q) ↦ rw (Wrote, q) (laws.written-close io.session c q, ((λ q. tt), λ q. refl))
    | inr (e, q) ↦ rw (Wrote, q) (refl, ((λ q. tt), λ q. refl))
  ]
  round-Wrote io (ev none) = (refl, ((λ q. cc), λ q. elim q [ ]))
  round-Wrote io (ev (some SshEvent.eof)) = sym (append-nil (written io.session))
  round-Wrote io (ev (some SshEvent.closed)) = (refl, ((λ q. cc), λ q. elim q [ ]))
  round-Wrote io (ev (some (SshEvent.out d))) = forward-Wrote io (SshEvent.out d) (Session.output d)
  round-Wrote io (ev (some (SshEvent.stderr d))) =
      forward-Wrote io (SshEvent.stderr d) (Session.stderr d)
  round-Wrote io (ev (some (SshEvent.exit_status s))) =
      forward-Wrote io (SshEvent.exit_status s) (Session.exit_status s)

  -- What a loop has done that returned `user` and left `io'`: the branches that it took, and the
  -- last one.
  abbrev pub Loop : Driver.Io russh mpsc → List Branch → Bool → Driver.Io russh mpsc → Type 0
  Loop io bs user io' =
      (taken : List Branch) × (last : Branch) × (rest : List Branch) × (bs ≡ taken ++ last ∷ rest)
      × (written io'.session ≡ written io.session ++ inputs taken)
      × ((user ≡ true) ↔ IsDisconnect last)

  -- Behind a round.
  after_round-Loop :
      (b : Branch) (bs : List Branch) (io io' : Driver.Io russh mpsc) (user : Bool)
      (r : Driver.Round russh mpsc)
      → Wrote b io r
      → ((i : Driver.Io russh mpsc)
          → Driver.io_loop russh mpsc i bs ≡ some (user, io')
          → Loop i bs user io')
      → after_round russh mpsc bs r ≡ some (user, io')
      → Loop io (b ∷ bs) user io'
  after_round-Loop b bs io io' user (Driver.return u i) (kept, flag) later h =
      let same_io : i ≡ io' = cc in
      let same_user : u ≡ user = cc in
      (
        [],
        b,
        bs,
        refl,
        ap (λ (x : Driver.Io russh mpsc). written x.session) (sym same_io)
            ∙ kept
            ∙ sym (append-nil (written io.session)),
        subst (λ x. (x ≡ true) ↔ IsDisconnect b) same_user flag,
      )
  after_round-Loop b bs io io' user (Driver.continue i) w later h =
      let (taken, last, rest, splits, wrote, flag) = later i h in
      (
        b ∷ taken,
        last,
        rest,
        ap (b ∷◌) splits,
        wrote
            ∙ ap (λ x. x ++ inputs taken) w
            ∙ append_assoc (written io.session) (input_of b) (inputs taken),
        flag,
      )

  io_loop-Loop :
      (bs : List Branch) (io io' : Driver.Io russh mpsc) (user : Bool)
      → Driver.io_loop russh mpsc io bs ≡ some (user, io')
      → Loop io bs user io'
  unfolding Driver.io_loop
  io_loop-Loop [] io io' user h = cc
  io_loop-Loop (b ∷ bs) io io' user h =
      after_round-Loop b bs io io' user (Driver.round russh mpsc io b) (round-Wrote io b)
        (λ i. io_loop-Loop bs i io' user) h

  -- A loop that comes to a branch that stops it returns, and the channel has then taken the bytes of
  -- all the commands before the last branch, in order and nothing else; it returns `true` exactly if
  -- the last branch is the user's `disconnect`.
  pub io_loop-returns :
      (before : List Branch) (b : Branch) (after : List Branch) (io : Driver.Io russh mpsc)
      → Stops b
      → (user : Bool) × (io' : Driver.Io russh mpsc) × (Driver.io_loop russh mpsc io
            (before ++ b ∷ after)
          ≡ some (user, io'))
        × Loop io (before ++ b ∷ after) user io'
  io_loop-returns before b after io stops =
      let ((user, io'), ran) = value_of _ (io_loop-ends russh mpsc before b after io stops) in
      (user, io', ran, io_loop-Loop (before ++ b ∷ after) io io' user ran)

  -- No branch is a `disconnect`.
  abbrev pub NoDisconnect : List Branch → Type 0
  NoDisconnect [] = Unit
  NoDisconnect (b ∷ bs) = (¬ IsDisconnect b) × NoDisconnect bs

  after_disconnect :
      (after : List Branch) (io io' : Driver.Io russh mpsc) (user : Bool)
      (r : Driver.Round russh mpsc)
      → Wrote (cmd (some disconnect)) io r
      → IsReturn russh mpsc r
      → after_round russh mpsc after r ≡ some (user, io')
      → written io'.session ≡ written io.session
  after_disconnect after io io' user (Driver.continue i) w stops h = elim stops [ ]
  after_disconnect after io io' user (Driver.return u i) (kept, flag) stops h =
      let same_io : i ≡ io' = cc in
      ap (λ (x : Driver.Io russh mpsc). written x.session) (sym same_io) ∙ kept

  after_any-written :
      (b : Branch) (bs : List Branch) (rest : Bytes) (io io' : Driver.Io russh mpsc)
      (r : Driver.Round russh mpsc)
      → Wrote b io r
      → ¬ IsDisconnect b
      → ((i : Driver.Io russh mpsc)
          → Driver.io_loop russh mpsc i bs ≡ some (true, io')
          → written io'.session ≡ written i.session ++ rest)
      → after_round russh mpsc bs r ≡ some (true, io')
      → written io'.session ≡ written io.session ++ (input_of b ++ rest)
  after_any-written b bs rest io io' (Driver.return u i) (kept, flag) n later h =
      let by_user : u ≡ true = cc in absurd (n (flag.0 by_user))
  after_any-written b bs rest io io' (Driver.continue i) w n later h =
      later i h ∙ ap (λ x. x ++ rest) w ∙ append_assoc (written io.session) (input_of b) rest

  -- A loop that the user ends has written all that came before the end.
  pub io_loop-disconnected :
      (before after : List Branch) (io io' : Driver.Io russh mpsc)
      → NoDisconnect before
      → Driver.io_loop russh mpsc io (before ++ cmd (some disconnect) ∷ after) ≡ some (true, io')
      → written io'.session ≡ written io.session ++ inputs before
  unfolding Driver.io_loop
  io_loop-disconnected [] after io io' n h =
      after_disconnect after io io' true (Driver.round russh mpsc io (cmd (some disconnect)))
        (round-Wrote io (cmd (some disconnect)))
        (round-Stops russh mpsc io (cmd (some disconnect)) tt) h
      ∙ sym (append-nil (written io.session))
  io_loop-disconnected (b ∷ before) after io io' (n, ns) h =
      after_any-written b (before ++ cmd (some disconnect) ∷ after) (inputs before) io io'
        (Driver.round russh mpsc io b) (round-Wrote io b) n
        (λ i. io_loop-disconnected before after i io' ns) h
