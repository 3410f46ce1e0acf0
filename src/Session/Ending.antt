-- ===== src/Session/Ending.antt =====
-- The driver of crates/tiny-ssh-core/src/session.rs ends once it is asked to, or the remote closes.
use tiny_ssh.Base.{◌≡◌, refl, Bool, Option, none, some, List, [], ◌∷◌, ◌++◌, Result-cases, inl, inr}
use tiny_ssh.Session.{SessionInput, disconnect}
use tiny_ssh.Session.Channel
use tiny_ssh.Session.Channel.{Russh, SshEvent}
use tiny_ssh.Session.Driver
use tiny_ssh.Session.Driver.{Mpsc, Branch, cmd, ev, Opening, refused, no_shell, opened}

-- The user disconnects, the handle is dropped, or the channel is closed or drained.
abbrev pub Stops : Branch → Type 0
Stops (cmd none) = Unit
Stops (cmd (some disconnect)) = Unit
Stops (ev none) = Unit
Stops (ev (some SshEvent.closed)) = Unit
Stops _ = ⊥

abbrev pub IsSome {ℓ} : {A : Type ℓ} → Option A → Type 0
IsSome none = ⊥
IsSome (some a) = Unit

pub value_of {ℓ} : {A : Type ℓ} (o : Option A) → IsSome o → (a : A) × (o ≡ some a)
value_of none h = elim h [ ]
value_of (some a) h = (a, refl)

module _ (russh : Russh) (mpsc : Mpsc) where
  open mpsc use {Sender}

  abbrev pub IsReturn : Driver.Round russh mpsc → Type 0
  IsReturn (Driver.return user io) = Unit
  IsReturn (Driver.continue io) = ⊥

  pub round-Stops :
      (io : Driver.Io russh mpsc) (b : Branch) → Stops b → IsReturn (Driver.round russh mpsc io b)
  unfolding Driver.round Driver.on_cmd Driver.on_ssh_event
  round-Stops io (cmd none) h = tt
  round-Stops io (cmd (some disconnect)) h = elim (Result-cases (Channel.close russh io.session)) [
    | inl (c, q) ↦ rw (IsReturn, q) tt
    | inr (e, q) ↦ rw (IsReturn, q) tt
  ]
  round-Stops io (cmd (some (SessionInput.bytes d))) h = elim h [ ]
  round-Stops io (cmd (some (SessionInput.resize c r))) h = elim h [ ]
  round-Stops io (ev none) h = tt
  round-Stops io (ev (some SshEvent.closed)) h = tt
  round-Stops io (ev (some (SshEvent.out d))) h = elim h [ ]
  round-Stops io (ev (some (SshEvent.stderr d))) h = elim h [ ]
  round-Stops io (ev (some (SshEvent.exit_status s))) h = elim h [ ]
  round-Stops io (ev (some SshEvent.eof)) h = elim h [ ]

  module _ (bs : List Branch) where
    -- The loop behind a round.
    abbrev pub after_round : Driver.Round russh mpsc → Option (Bool × Driver.Io russh mpsc)
    after_round r = elim r [
      | Driver.return u i ↦ some (u, i)
      | Driver.continue i ↦ Driver.io_loop russh mpsc i bs
    ]

    after_return : (r : Driver.Round russh mpsc) → IsReturn r → IsSome (after_round r)
    after_return (Driver.return u i) h = tt
    after_return (Driver.continue i) h = elim h [ ]

    after_any :
        (r : Driver.Round russh mpsc)
        → ((i : Driver.Io russh mpsc) → IsSome (Driver.io_loop russh mpsc i bs))
        → IsSome (after_round r)
    after_any (Driver.return u i) later = tt
    after_any (Driver.continue i) later = later i

  pub io_loop-ends :
      (before : List Branch) (b : Branch) (after : List Branch) (io : Driver.Io russh mpsc)
      → Stops b
      → IsSome (Driver.io_loop russh mpsc io (before ++ b ∷ after))
  unfolding Driver.io_loop
  io_loop-ends [] b after io h =
      after_return after (Driver.round russh mpsc io b) (round-Stops io b h)
  io_loop-ends (a ∷ before) b after io h =
      after_any (before ++ b ∷ after) (Driver.round russh mpsc io a)
        (λ i. io_loop-ends before b after i h)

  finish-IsSome :
      (o : Option (Bool × Driver.Io russh mpsc)) → IsSome o → IsSome (Driver.finish russh mpsc o)
  unfolding Driver.finish
  finish-IsSome none h = h
  finish-IsSome (some (user, io)) h = tt

  -- However the session opens and whatever comes before, the driver ends once it is asked to
  -- disconnect, its handle is dropped, or the channel is closed or drained.
  pub driver_task-ends :
      (tx : Sender) (opening : Opening russh) (before : List Branch) (b : Branch)
      (after : List Branch)
      → Stops b
      → (tx' : Sender) × (Driver.driver_task russh mpsc tx opening (before ++ b ∷ after) ≡ some tx')
  unfolding Driver.driver_task
  driver_task-ends tx (refused e) before b after h = (_, refl)
  driver_task-ends tx (no_shell e) before b after h = (_, refl)
  driver_task-ends tx (opened c) before b after h =
      value_of _ (finish-IsSome _ (io_loop-ends before b after _ h))
