-- ===== src/Session/Relay.antt =====
-- What the user is to see of a session: the events other than errors.
use tiny_ssh.Base.{◌≡◌, refl, ap, some, List, [], ◌∷◌, ◌++◌, All}
use tiny_ssh.Session
use tiny_ssh.Session.{SessionEvent, state_changed, error, driver_closed}
use tiny_ssh.Session.Channel.{SshEvent}
use tiny_ssh.Session.Driver.{Branch, ev}

-- An event of the loop itself: neither a change of state nor the end.
abbrev pub IsIo : SessionEvent → Type 0
IsIo (state_changed s) = ⊥
IsIo driver_closed = ⊥
IsIo _ = Unit

-- What the user is to see of an event of the remote.
abbrev pub relay : SshEvent → List SessionEvent
relay (SshEvent.out d) = Session.output d ∷ []
relay (SshEvent.stderr d) = Session.stderr d ∷ []
relay (SshEvent.exit_status s) = Session.exit_status s ∷ []
relay _ = []

abbrev pub relay_of : Branch → List SessionEvent
relay_of (ev (some e)) = relay e
relay_of _ = []

-- What the remote has sent, as it is relayed.
abbrev pub relays : List Branch → List SessionEvent
relays [] = []
relays (b ∷ bs) = relay_of b ++ relays bs

-- The events other than errors.
abbrev pub without_errors : List SessionEvent → List SessionEvent
without_errors [] = []
without_errors (error e ∷ es) = without_errors es
without_errors (e ∷ es) = e ∷ without_errors es

pub without_errors-append :
    (es fs : List SessionEvent) → without_errors (es ++ fs) ≡ without_errors es ++ without_errors fs
without_errors-append [] fs = refl
without_errors-append (error e ∷ es) fs = without_errors-append es fs
without_errors-append (state_changed s ∷ es) fs =
    ap (state_changed s ∷◌) (without_errors-append es fs)
without_errors-append (Session.output d ∷ es) fs =
    ap (Session.output d ∷◌) (without_errors-append es fs)
without_errors-append (Session.stderr d ∷ es) fs =
    ap (Session.stderr d ∷◌) (without_errors-append es fs)
without_errors-append (Session.exit_status d ∷ es) fs =
    ap (Session.exit_status d ∷◌) (without_errors-append es fs)
without_errors-append (driver_closed ∷ es) fs = ap (driver_closed ∷◌) (without_errors-append es fs)

pub All-append : (es fs : List SessionEvent) → All IsIo es → All IsIo fs → All IsIo (es ++ fs)
All-append [] fs h k = k
All-append (e ∷ es) fs h k = (h.0, All-append es fs h.1 k)
