-- ===== src/Session/UpToEnd.antt =====
-- Which branches the loop of crates/tiny-ssh-core/src/session.rs takes: all up to the first that ends
-- it.
use tiny_ssh.Base.{
  ◌≡◌, ◌⊎◌, refl, ap, none, some, List, [], ◌∷◌, ◌++◌, All, Result-cases, inl, inr, err,
}
use tiny_ssh.Utf8.{Text}
use tiny_ssh.Session
use tiny_ssh.Session.{SessionEvent, SessionInput, disconnect}
use tiny_ssh.Session.Channel
use tiny_ssh.Session.Channel.{Russh, SshEvent}
use tiny_ssh.Session.Driver
use tiny_ssh.Session.Driver.{Mpsc, MpscLaws, Branch, cmd, ev}
use tiny_ssh.Session.Delivery.{IsAttended}
use tiny_ssh.Session.Ending.{Stops, IsReturn, round-Stops}

-- A command whose bytes the channel can refuse.
abbrev pub Refuses : (russh : Russh) → Branch → Type 0
Refuses russh (cmd (some (SessionInput.bytes d))) =
    (c : russh.Channel) × (e : Text) × (russh.data_ c d ≡ err e)
Refuses russh _ = ⊥

abbrev pub EndsAt : (russh : Russh) → Branch → Type 0
EndsAt russh b = Stops b ⊎ Refuses russh b

-- The branches that are taken of those that come: the first that ends the loop is the last.
pub record UpToEnd (russh : Russh) (bs taken : List Branch) : Type 0 where
  pub before : List Branch
  pub last : Branch
  pub rest : List Branch
  pub splits : bs ≡ before ++ last ∷ rest
  pub taken_is : taken ≡ before ++ last ∷ []
  pub goes_on : All (λ b. ¬ Stops b) before
  pub ends : EndsAt russh last

pub UpToEnd-last :
    {russh : Russh} {b : Branch} (bs : List Branch)
    → EndsAt russh b
    → UpToEnd russh (b ∷ bs) (b ∷ [])
UpToEnd-last {b = b} bs e = record {
  before = [];
  last = b;
  rest = bs;
  splits = refl;
  taken_is = refl;
  goes_on = tt;
  ends = e;
}

pub UpToEnd-cons :
    {russh : Russh} {b : Branch} {bs taken : List Branch}
    → ¬ Stops b
    → UpToEnd russh bs taken
    → UpToEnd russh (b ∷ bs) (b ∷ taken)
UpToEnd-cons {b = b} n u = record {
  before = b ∷ u.before;
  last = u.last;
  rest = u.rest;
  splits = ap (b ∷◌) u.splits;
  taken_is = ap (b ∷◌) u.taken_is;
  goes_on = (n, u.goes_on);
  ends = u.ends;
}

module _ (russh : Russh) (mpsc : Mpsc) (laws : MpscLaws mpsc) where
  -- A round that goes on was not to stop; one that returns was to end.
  abbrev pub Decides : Branch → Driver.Round russh mpsc → Type 0
  Decides b (Driver.continue io) = ¬ Stops b
  Decides b (Driver.return user io) = EndsAt russh b

  Decides-stop :
      (b : Branch) (r : Driver.Round russh mpsc) → Stops b → IsReturn russh mpsc r → Decides b r
  Decides-stop b (Driver.continue io) s h = elim h [ ]
  Decides-stop b (Driver.return user io) s h = inl s

  module _ (attended : IsAttended russh mpsc laws) where
    forward-Decides :
        (io : Driver.Io russh mpsc) (b : Branch) (e : SessionEvent)
        → ¬ Stops b
        → Decides b (Driver.forward russh mpsc io e)
    unfolding Driver.forward
    forward-Decides io b e n = let (tx', sent) = attended io.event_tx e in rw (Decides, sent) n

    pub round-Decides :
        (io : Driver.Io russh mpsc) (b : Branch) → Decides b (Driver.round russh mpsc io b)
    unfolding Driver.round Driver.on_cmd Driver.on_ssh_event Channel.write_data
        Channel.resize_window
    round-Decides io (cmd none) = inl tt
    round-Decides io (cmd (some disconnect)) =
        Decides-stop (cmd (some disconnect)) _ tt
          (round-Stops russh mpsc io (cmd (some disconnect)) tt)
    round-Decides io (cmd (some (SessionInput.bytes d))) =
        elim (Result-cases (russh.data_ io.session d)) [
          | inl (c, q) ↦ rw (Decides, q) (λ s. s)
          | inr (e, q) ↦ rw (Decides, q) (inr (io.session, e, q))
        ]
    round-Decides io (cmd (some (SessionInput.resize cols rows))) =
        elim (Result-cases (russh.window_change io.session cols rows)) [
          | inl (c, q) ↦ rw (Decides, q) (λ s. s)
          | inr (e, q) ↦ rw (Decides, q) (λ s. s)
        ]
    round-Decides io (ev none) = inl tt
    round-Decides io (ev (some SshEvent.eof)) = λ s. s
    round-Decides io (ev (some SshEvent.closed)) = inl tt
    round-Decides io (ev (some (SshEvent.out d))) =
        forward-Decides io (ev (some (SshEvent.out d))) (Session.output d) (λ s. s)
    round-Decides io (ev (some (SshEvent.stderr d))) =
        forward-Decides io (ev (some (SshEvent.stderr d))) (Session.stderr d) (λ s. s)
    round-Decides io (ev (some (SshEvent.exit_status s))) =
        forward-Decides io (ev (some (SshEvent.exit_status s))) (Session.exit_status s) (λ h. h)
