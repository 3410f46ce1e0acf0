-- ===== src/MainLoop/Reach.antt =====
-- The states that the application (crates/tiny-ssh-cli/src/app.rs) can be in, and what holds of all
-- of them.
use tiny_ssh.Base.{◌≡◌, refl, sym, ◌∙◌, ℕ, Option, some, arith, subst}
use tiny_ssh.Utf8.{Text}
use tiny_ssh.Keys.{KeyEvent}
use tiny_ssh.History.Database.{Sqlite}
use tiny_ssh.Terminal
use tiny_ssh.Terminal.{Vt, Terminal}
use tiny_ssh.Session.{SessionEvent}
use tiny_ssh.App
use tiny_ssh.App.{App, Action}
use tiny_ssh.App.Input.{on_key}
use tiny_ssh.App.Output.{on_session_event, on_resize}
use tiny_ssh.App.Valid.{IsValid, on_key-Answers}
use tiny_ssh.App.Events.{on_session_event-IsValid}
use tiny_ssh.MainLoop.Kept.{Keeps, key-Keeps}
use tiny_ssh.MainLoop.Quiet.{IsSmall, IsDrained, Outer, on_session_event-Outer}

module _ (vt : Vt) (db : Sqlite) where
  -- What a user and a session can make of a new application: keys, events of the session and new
  -- sizes of the window, in any order.
  pub data Reach (host user : Text) (cols rows : ℕ) : App vt → db.Conn → Type 0 where
    start : (conn : db.Conn) → Reach host user cols rows (App.new vt host user cols rows) conn
    key :
        {app app' : App vt} {conn conn' : db.Conn} (clock : Option ℕ) (k : KeyEvent) (a : Action)
        → Reach host user cols rows app conn
        → on_key vt db app conn clock k ≡ some (app', conn', a)
        → Reach host user cols rows app' conn'
    event :
        {app : App vt} {conn : db.Conn} (e : SessionEvent)
        → Reach host user cols rows app conn
        → Reach host user cols rows (on_session_event vt app e) conn
    resize :
        {app : App vt} {conn : db.Conn} (cols' rows' : ℕ)
        → Reach host user cols rows app conn
        → Reach host user cols rows (on_resize vt app cols' rows') conn

  pub record Inv (host user : Text) (app : App vt) : Type 0 where
    pub valid : IsValid app.shadow
    pub quiet : IsDrained vt app.terminal
    pub prompt_small : IsSmall app.prompt_pos
    pub host_kept : app.host ≡ host
    pub user_kept : app.user ≡ user

  new-Inv : (host user : Text) (cols rows : ℕ) → Inv host user (App.new vt host user cols rows)
  unfolding App.new Terminal.new
  new-Inv host user cols rows = record {
    valid = record { cursor-le-length = omega arith; is_proper = λ g q n. cc };
    quiet = record { bounded = omega arith; drained = refl };
    prompt_small = tt;
    host_kept = refl;
    user_kept = refl;
  }

  key-Inv :
      (host user : Text) (app app' : App vt)
      → Keeps vt app app'
      → IsValid app'.shadow
      → Inv host user app
      → Inv host user app'
  key-Inv host user app app' k v i = record {
    valid = v;
    quiet = subst (IsDrained vt) (sym k.terminal_kept) i.quiet;
    prompt_small = subst IsSmall (sym k.prompt_kept) i.prompt_small;
    host_kept = k.host_kept ∙ i.host_kept;
    user_kept = k.user_kept ∙ i.user_kept;
  }

  Inv-Outer : (host user : Text) (app : App vt) → Inv host user app → Outer vt host user app
  Inv-Outer host user app i = record {
    quiet = i.quiet;
    prompt_small = i.prompt_small;
    host_kept = i.host_kept;
    user_kept = i.user_kept;
  }

  Outer-Inv :
      (host user : Text) (app : App vt)
      → IsValid app.shadow
      → Outer vt host user app
      → Inv host user app
  Outer-Inv host user app v o = record {
    valid = v;
    quiet = o.quiet;
    prompt_small = o.prompt_small;
    host_kept = o.host_kept;
    user_kept = o.user_kept;
  }

  key-IsValid :
      (app app' : App vt) (conn conn' : db.Conn) (clock : Option ℕ) (k : KeyEvent) (a : Action)
      → on_key vt db app conn clock k ≡ some (app', conn', a)
      → IsValid app.shadow
      → IsValid app'.shadow
  key-IsValid app app' conn conn' clock k a e v =
      let (app'', conn'', a'', ran, answered, valid) = on_key-Answers vt db app conn clock k v in
      let same_app : app'' ≡ app' = cc in subst (λ (x : App vt). IsValid x.shadow) same_app valid

  -- In every state that keys, events of the session and new sizes can bring about, the shadow buffer
  -- is valid, the scanner holds no more than its bound, every OSC event has been handled, a prompt
  -- stands at a column and a row of a `u16`, and the host and the user are those of the start.
  pub Reach-Inv :
      {host user : Text} {cols rows : ℕ} {app : App vt} {conn : db.Conn}
      → Reach host user cols rows app conn
      → Inv host user app
  unfolding on_resize Terminal.resize
  Reach-Inv {host} {user} {cols} {rows} (start conn) = new-Inv host user cols rows
  Reach-Inv {host} {user} {app = app'} {conn = conn'} (key {app} {conn = conn} clock k a r e) =
      let i = Reach-Inv r in
      key-Inv host user app app' (key-Keeps vt db app app' conn conn' clock k a e)
        (key-IsValid app app' conn conn' clock k a e i.valid) i
  Reach-Inv {host} {user} (event {app} e r) =
      let i = Reach-Inv r in
      Outer-Inv host user _ (on_session_event-IsValid vt app e i.valid)
        (on_session_event-Outer vt host user app e (Inv-Outer host user app i))
  Reach-Inv {host} {user} (resize {app} cols' rows' r) =
      let i = Reach-Inv r in
      record {
        valid = i.valid;
        quiet = record { bounded = i.quiet.bounded; drained = i.quiet.drained };
        prompt_small = i.prompt_small;
        host_kept = i.host_kept;
        user_kept = i.user_kept;
      }
