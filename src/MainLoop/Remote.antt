-- ===== src/MainLoop/Remote.antt =====
-- From the keys of the user's terminal (crates/tiny-ssh-cli/src/main.rs) through the queue and the
-- driver (crates/tiny-ssh-core/src/session.rs) to the remote line.
use tiny_ssh.Base.{
  ℕ, ◌≡◌, refl, sym, ◌∙◌, ap, subst, true, false, Option, none, some, List, [], ◌∷◌, ◌++◌,
}
use tiny_ssh.Keys.{KeyEvent}
use tiny_ssh.History.Database.{Sqlite}
use tiny_ssh.Terminal.{Vt}
use tiny_ssh.Session.{SessionInput, disconnect}
use tiny_ssh.Session.Handle.{Commands}
use tiny_ssh.Session.Channel.{Russh}
use tiny_ssh.Session.Driver
use tiny_ssh.Session.Driver.{Mpsc, Branch, cmd, ev}
use tiny_ssh.Session.Written.{RusshLaws, inputs, NoDisconnect, io_loop-disconnected}
use tiny_ssh.App.Valid.{IsValid}
use tiny_ssh.App.Remote.{Editor, ReadlineLaws}
use tiny_ssh.App.Typing.{InStep, AllFollowed}
use tiny_ssh.MainLoop.{Main}
use tiny_ssh.MainLoop.Delivery.{OpenLaws, AllDown, bytes_in, press_keys, press_keys-InStep}

-- The commands that the driver takes from its queue.
abbrev pub commands_of : List Branch → List SessionInput
commands_of [] = []
commands_of (cmd (some i) ∷ bs) = i ∷ commands_of bs
commands_of (cmd none ∷ bs) = commands_of bs
commands_of (ev e ∷ bs) = commands_of bs

inputs-bytes_in : (bs : List Branch) → inputs bs ≡ bytes_in (commands_of bs)
inputs-bytes_in [] = refl
inputs-bytes_in (cmd none ∷ bs) = inputs-bytes_in bs
inputs-bytes_in (cmd (some (SessionInput.bytes d)) ∷ bs) = ap (d ++◌) (inputs-bytes_in bs)
inputs-bytes_in (cmd (some (SessionInput.resize c r)) ∷ bs) = inputs-bytes_in bs
inputs-bytes_in (cmd (some disconnect) ∷ bs) = inputs-bytes_in bs
inputs-bytes_in (ev e ∷ bs) = inputs-bytes_in bs

append_cancel : (xs ys zs : List SessionInput) → xs ++ ys ≡ xs ++ zs → ys ≡ zs
append_cancel [] ys zs h = h
append_cancel (x ∷ xs) ys zs h = append_cancel xs ys zs cc

module _ (vt : Vt) (db : Sqlite) (commands : Commands) (queue : OpenLaws commands) (ed : Editor)
    (readline : ReadlineLaws ed) (russh : Russh) (channel : RusshLaws russh) (mpsc : Mpsc) where
  -- The shadow buffer shows the line of the remote editor that has read all that the channel took.
  abbrev pub Mirrors : ed.State → russh.Channel → Main vt db commands → Type 0
  Mirrors blank c m = InStep ed m.app.shadow (ed.read blank (channel.written c))

  -- A remote editor that has read all that the channel took shows the line of a valid shadow buffer.
  -- Keys that both sides take alike go down, Ctrl-W only where the white space before the cursor is
  -- spaces and tabs, and the program goes on. Once the driver has taken from
  -- its queue exactly what they put there, and no request to disconnect before that, and then ends
  -- on such a request, the editor, having read all that the channel took, shows the line of the
  -- shadow buffer again, its cursor included.
  pub press_keys-Mirrors :
      (blank : ed.State) (keys : List (Option ℕ × KeyEvent)) (m m' : Main vt db commands)
      (before after : List Branch) (io io' : Driver.Io russh mpsc)
      → AllDown keys
      → IsValid m.app.shadow
      → AllFollowed vt db m.app m.conn keys
      → Mirrors blank io.session m
      → press_keys vt db commands m keys ≡ some (false, m')
      → queue.queued m'.handle ≡ queue.queued m.handle ++ commands_of before
      → NoDisconnect russh mpsc channel before
      → Driver.io_loop russh mpsc io (before ++ cmd (some disconnect) ∷ after) ≡ some (true, io')
      → Mirrors blank io'.session m'
  press_keys-Mirrors blank keys m m' before after io io' down v f h pressed took n ended =
      let old = channel.written io.session in
      let (m'', is, ran, put, in_step) =
        press_keys-InStep vt db commands queue ed readline keys m (ed.read blank old) down v h f in
      let same : m'' ≡ m' = cc in
      let all : is ≡ commands_of before =
        append_cancel (queue.queued m.handle) is (commands_of before)
          (sym put ∙ ap (λ (x : Main vt db commands). queue.queued x.handle) same ∙ took) in
      let wrote : channel.written io'.session ≡ old ++ bytes_in is =
        io_loop-disconnected russh mpsc channel before after io io' n ended
        ∙ ap (old ++◌) (inputs-bytes_in before ∙ ap bytes_in (sym all)) in
      let read : ed.read (ed.read blank old) (bytes_in is)
          ≡ ed.read blank (channel.written io'.session) =
        sym (ap (ed.read blank) wrote ∙ readline.read-append blank old (bytes_in is)) in
      subst
        (λ (x : Main vt db commands).
          InStep ed x.app.shadow (ed.read blank (channel.written io'.session)))
        same (subst (InStep ed m''.app.shadow) read in_step)
