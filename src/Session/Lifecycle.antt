-- ===== src/Session/Lifecycle.antt =====
-- The events that a session's driver posts, in order.
use tiny_ssh.Base.{
  ◌≡◌, refl, sym, ◌∙◌, subst, Bool, Option, none, some, List, [], ◌∷◌, ◌++◌, append-nil, All,
}
use tiny_ssh.Session
use tiny_ssh.Session.{
  SessionEvent, SessionInput, connecting, authenticated, shell_open, failed, state_changed, error,
  driver_closed, disconnect,
}
use tiny_ssh.Session.Channel.{Russh, SshError, to_string}
use tiny_ssh.Session.Relay.{
  IsIo, relay_of, relays, without_errors, without_errors-append, All-append,
}
use tiny_ssh.Session.Ending.{Stops}
use tiny_ssh.Session.UpToEnd.{UpToEnd, EndsAt, UpToEnd-last, UpToEnd-cons, Decides, round-Decides}
use tiny_ssh.Session.Driver
use tiny_ssh.Session.Driver.{Mpsc, MpscLaws, Branch, cmd, ev, Opening, refused, no_shell, opened}
use tiny_ssh.Session.Delivery.{
  IsAttended, Delivers, post-Delivers, then_deliver, round-Posts, io_of, Posts,
}

module _ (russh : Russh) (mpsc : Mpsc) (laws : MpscLaws mpsc) where
  open mpsc use {Sender, send}
  open laws use {delivered}

  -- The life of a session whose handle stays, by how it opens.
  abbrev pub Life : Opening russh → List Branch → List SessionEvent → Type 0
  Life (refused e) bs es =
      es
      ≡ state_changed connecting
        ∷ error (to_string e)
        ∷ state_changed (failed (to_string e))
        ∷ driver_closed
        ∷ []
  Life (no_shell e) bs es =
      es
      ≡ state_changed connecting
        ∷ state_changed authenticated
        ∷ error (to_string e)
        ∷ state_changed (failed (to_string e))
        ∷ driver_closed
        ∷ []
  Life (opened c) bs es =
      (taken : List Branch) × (io : List SessionEvent) × UpToEnd russh bs taken
      × All IsIo io
      × (without_errors io ≡ relays taken)
      × (es
          ≡ state_changed connecting
            ∷ state_changed authenticated
            ∷ state_changed shell_open
            ∷ (io ++ (state_changed Session.closed ∷ driver_closed ∷ [])))

  module _ (attended : IsAttended russh mpsc laws) where
    -- A loop that has returned: the branches it has taken, and the events it has posted.
    record Ran (io io' : Driver.Io russh mpsc) (bs : List Branch) : Type 0 where
      taken : List Branch
      up_to_end : UpToEnd russh bs taken
      new : List SessionEvent
      posted : Delivers russh mpsc laws io.event_tx io'.event_tx new
      are_io : All IsIo new
      relayed : without_errors new ≡ relays taken

    last_round :
        {io io' : Driver.Io russh mpsc} {b : Branch} (bs : List Branch)
        → EndsAt russh b
        → Posts russh mpsc laws attended io.event_tx io'.event_tx b
        → Ran io io' (b ∷ bs)
    last_round {b = b} bs e p = record {
      taken = b ∷ [];
      up_to_end = UpToEnd-last bs e;
      new = p.new;
      posted = p.posted;
      are_io = p.are_io;
      relayed = p.relayed ∙ sym (append-nil (relay_of b));
    }

    one_more_round :
        {io io' io'' : Driver.Io russh mpsc} {b : Branch} {bs : List Branch}
        → ¬ Stops b
        → Posts russh mpsc laws attended io.event_tx io'.event_tx b
        → Ran io' io'' bs
        → Ran io io'' (b ∷ bs)
    one_more_round {b = b} n p r = record {
      taken = b ∷ r.taken;
      up_to_end = UpToEnd-cons n r.up_to_end;
      new = p.new ++ r.new;
      posted = then_deliver russh mpsc laws attended p.posted r.posted;
      are_io = All-append p.new r.new p.are_io r.are_io;
      relayed = without_errors-append p.new r.new ∙ rw (p.relayed, r.relayed) refl;
    }

    io_loop-Ran :
        (bs : List Branch) (io io' : Driver.Io russh mpsc) (user : Bool)
        → Driver.io_loop russh mpsc io bs ≡ some (user, io')
        → Ran io io' bs
    unfolding Driver.io_loop
    io_loop-Ran [] io io' user h = cc
    io_loop-Ran (b ∷ bs) io io' user h =
        by_round (Driver.round russh mpsc io b) (round-Decides russh mpsc laws attended io b)
          (round-Posts russh mpsc laws attended io b) (λ i e. io_loop-Ran bs i io' user e) h
      where
        by_round :
            (r : Driver.Round russh mpsc)
            → Decides russh mpsc laws b r
            → Posts russh mpsc laws attended io.event_tx
                ((io_of russh mpsc laws attended r).event_tx)
                b
            → ((i : Driver.Io russh mpsc)
                → Driver.io_loop russh mpsc i bs ≡ some (user, io')
                → Ran i io' bs)
            → elim r [
              | Driver.return u i ↦ some (u, i)
              | Driver.continue i ↦ Driver.io_loop russh mpsc i bs
            ]
              ≡ some (user, io')
            → Ran io io' (b ∷ bs)
        by_round (Driver.return u i) d p later e =
            let same : i ≡ io' = cc in
            last_round bs d (
              subst
                (λ (j : Driver.Io russh mpsc).
                  Posts russh mpsc laws attended io.event_tx j.event_tx b)
                same p)
        by_round (Driver.continue i) d p later e = one_more_round d p (later i e)

    -- The three events of a driver that fails, behind those that it has posted.
    fail-Delivers :
        (tx tx' : Sender) (es : List SessionEvent) (e : SshError)
        → Delivers russh mpsc laws tx tx' es
        → Delivers russh mpsc laws tx
            (Driver.post russh mpsc (Driver.post_failure russh mpsc tx' e) driver_closed)
            (es
              ++ (error (to_string e) ∷ state_changed (failed (to_string e)) ∷ driver_closed ∷ []))
    unfolding Driver.post_failure
    fail-Delivers tx tx' es e h = then_deliver russh mpsc laws attended h (
        then_deliver russh mpsc laws attended (post-Delivers russh mpsc laws attended _ _) (
          then_deliver russh mpsc laws attended (post-Delivers russh mpsc laws attended _ _)
            (post-Delivers russh mpsc laws attended _ _)))

    finished :
        (tx tx' : Sender) (io : Driver.Io russh mpsc) (bs : List Branch) (c : russh.Channel)
        → Delivers russh mpsc laws tx io.event_tx
            (state_changed connecting ∷ state_changed authenticated ∷ state_changed shell_open ∷ [])
        → (o : Option (Bool × Driver.Io russh mpsc))
        → ((user : Bool) (io' : Driver.Io russh mpsc) → o ≡ some (user, io') → Ran io io' bs)
        → Driver.finish russh mpsc o ≡ some tx'
        → (es : List SessionEvent) × Delivers russh mpsc laws tx tx' es × Life (opened c) bs es
    unfolding Driver.finish
    finished tx tx' io bs c h none ran e = cc
    finished tx tx' io bs c h (some (user, io')) ran e =
        let r = ran user io' refl in
        (
          _,
          then_deliver russh mpsc laws attended h (
              then_deliver russh mpsc laws attended r.posted (
                subst
                  (λ t.
                    Delivers russh mpsc laws io'.event_tx t
                      (state_changed Session.closed ∷ driver_closed ∷ []))
                  (cc)
                  (then_deliver russh mpsc laws attended
                    (post-Delivers russh mpsc laws attended _ _)
                    (post-Delivers russh mpsc laws attended _ _)))),
          (r.taken, r.new, r.up_to_end, r.are_io, r.relayed, refl),
        )

    ended :
        (tx t tx' : Sender) (opening : Opening russh) (bs : List Branch) (es : List SessionEvent)
        → Delivers russh mpsc laws tx t es
        → some t ≡ some tx'
        → Life opening bs es
        → (fs : List SessionEvent) × Delivers russh mpsc laws tx tx' fs × Life opening bs fs
    ended tx t tx' opening bs es d q life =
        let same : t ≡ tx' = cc in (es, subst (λ u. Delivers russh mpsc laws tx u es) same d, life)

    -- While the handle keeps its receiver, a driver that has ended has posted the life of its session:
    -- it connects, and either fails with the error, or authenticates and fails with the error, or
    -- opens the shell, relays all that the remote sends up to the end, in order, adds errors at most,
    -- and closes; `Closed` is the last event. The end is the first branch in which the user
    -- disconnects, the handle is dropped, or the channel is closed or drained, or a command before
    -- that whose bytes the channel can refuse.
    pub driver_task-Life :
        (tx tx' : Sender) (opening : Opening russh) (bs : List Branch)
        → Driver.driver_task russh mpsc tx opening bs ≡ some tx'
        → (es : List SessionEvent) × Delivers russh mpsc laws tx tx' es × Life opening bs es
    unfolding Driver.driver_task
    driver_task-Life tx tx' (refused e) bs h =
        ended tx _ tx' (refused e) bs _
          (fail-Delivers tx _ _ e (post-Delivers russh mpsc laws attended tx _)) h refl
    driver_task-Life tx tx' (no_shell e) bs h =
        ended tx _ tx' (no_shell e) bs _
          (fail-Delivers tx _ _ e (
            then_deliver russh mpsc laws attended (post-Delivers russh mpsc laws attended tx _)
              (post-Delivers russh mpsc laws attended _ _)))
          h refl
    driver_task-Life tx tx' (opened c) bs h =
        finished tx tx' _ bs c
          (then_deliver russh mpsc laws attended (post-Delivers russh mpsc laws attended tx _) (
            then_deliver russh mpsc laws attended (post-Delivers russh mpsc laws attended _ _)
              (post-Delivers russh mpsc laws attended _ _)))
          _ (λ user io' e. io_loop-Ran bs _ io' user e) h
