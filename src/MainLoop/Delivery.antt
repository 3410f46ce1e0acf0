-- ===== src/MainLoop/Delivery.antt =====
-- Keys from the user's terminal (crates/tiny-ssh-cli/src/main.rs) to the session, and what the remote
-- line editor has when it has read them.
use tiny_ssh.Base.{
  ℕ, ◌≡◌, ◌≢◌, refl, sym, ◌∙◌, ap, Bool, true, false, Option, some, List, [], ◌∷◌, ◌++◌, ◌>>=◌,
  append-nil, append_assoc, Bytes, if◌then◌else◌,
}
use tiny_ssh.Keys.{KeyEvent, KeyEventKind, press, repeat, release}
use tiny_ssh.History.Database.{Sqlite}
use tiny_ssh.Terminal.{Vt}
use tiny_ssh.Session.{SessionInput, bytes, resize, disconnect}
use tiny_ssh.Session.Handle.{Commands, send_bytes}
use tiny_ssh.App.{App, Action, send, quit, toggle_mouse_capture, copy_to_clipboard, nothing}
use tiny_ssh.App.Input.{on_key}
use tiny_ssh.App.Valid.{IsValid, on_key-Answers}
use tiny_ssh.App.Remote.{Editor, ReadlineLaws}
use tiny_ssh.App.Typing.{sent_by, InStep, AllFollowed, Answer-InStep}
use tiny_ssh.MainLoop.Stays.{edit_key-stays}
use tiny_ssh.MainLoop.{Main, handle_terminal_event, key_event, on_action, on_key_event, reported}

-- A queue to a driver that still runs: it takes every command behind the others.
pub record OpenLaws (commands : Commands) : Type 0 where
  pub queued : commands.Handle → List SessionInput
  pub takes :
      (h : commands.Handle) (i : SessionInput)
      → (h' : commands.Handle) × (commands.send h i ≡ some h') × (queued h' ≡ queued h ++ i ∷ [])

-- The bytes in commands.
abbrev pub bytes_in : List SessionInput → Bytes
bytes_in [] = []
bytes_in (bytes d ∷ is) = d ++ bytes_in is
bytes_in (resize cols rows ∷ is) = bytes_in is
bytes_in (disconnect ∷ is) = bytes_in is

bytes_in-append : (is js : List SessionInput) → bytes_in (is ++ js) ≡ bytes_in is ++ bytes_in js
bytes_in-append [] js = refl
bytes_in-append (bytes d ∷ is) js =
    ap (d ++◌) (bytes_in-append is js) ∙ sym (append_assoc d (bytes_in is) (bytes_in js))
bytes_in-append (resize cols rows ∷ is) js = bytes_in-append is js
bytes_in-append (disconnect ∷ is) js = bytes_in-append is js

-- A key that goes down, or is held.
abbrev pub IsDown : KeyEventKind → Type 0
IsDown release = ⊥
IsDown _ = Unit

-- All keys go down.
abbrev pub AllDown : List (Option ℕ × KeyEvent) → Type 0
AllDown [] = Unit
AllDown ((clock, key) ∷ keys) = IsDown key.kind × AllDown keys

module _ (vt : Vt) (db : Sqlite) (commands : Commands) where
  open db use {Conn}

  -- Keys of the terminal, one after the other; `true` is the end of the program.
  unfoldable pub press_keys :
      Main vt db commands → List (Option ℕ × KeyEvent) → Option (Bool × Main vt db commands)
  press_keys m [] = some (false, m)
  press_keys m ((clock, key) ∷ keys) =
      handle_terminal_event vt db commands m clock (key_event key) >>= λ (exits, m').
      let rest = press_keys m' keys in if exits then some (true, m') else rest

  module _ (laws : OpenLaws commands) where
    -- What an action other than the end leaves: the same application, and its bytes in the queue.
    on_action-queued :
        (m : Main vt db commands) (a : Action)
        → a ≢ quit
        → (h : commands.Handle) × (is : List SessionInput) × (on_action vt db commands m a
            ≡ (false, record m { handle = h }))
          × (laws.queued h ≡ laws.queued m.handle ++ is)
          × (bytes_in is ≡ sent_by a)
    unfolding on_action reported send_bytes sent_by
    on_action-queued m (send d) n =
        let (h, took, at) = laws.takes m.handle (bytes d) in
        (h, bytes d ∷ [], rw took refl, at, append-nil d)
    on_action-queued m quit n = absurd (n refl)
    on_action-queued m toggle_mouse_capture n =
        (m.handle, [], refl, sym (append-nil (laws.queued m.handle)), refl)
    on_action-queued m copy_to_clipboard n =
        (m.handle, [], refl, sym (append-nil (laws.queued m.handle)), refl)
    on_action-queued m nothing n =
        (m.handle, [], refl, sym (append-nil (laws.queued m.handle)), refl)

    -- A key through the main loop.
    on_key_event-queued :
        (m : Main vt db commands) (clock : Option ℕ) (key : KeyEvent) (kind : KeyEventKind)
        (app : App vt) (conn : Conn) (a : Action)
        → IsDown kind
        → on_key vt db m.app m.conn clock key ≡ some (app, conn, a)
        → a ≢ quit
        → (h : commands.Handle) × (is : List SessionInput) × (on_key_event vt db commands m clock
              key kind
            ≡ some (false, record { app = app; conn = conn; handle = h }))
          × (laws.queued h ≡ laws.queued m.handle ++ is)
          × (bytes_in is ≡ sent_by a)
    unfolding on_key_event
    on_key_event-queued m clock key release app conn a down ran n = elim down [ ]
    on_key_event-queued m clock key press app conn a down ran n =
        let (h, is, acted, at, same) = on_action-queued (record m { app = app; conn = conn }) a n in
        (h, is, rw (ran, ◌>>=◌) (ap some acted), at, same)
    on_key_event-queued m clock key repeat app conn a down ran n =
        let (h, is, acted, at, same) = on_action-queued (record m { app = app; conn = conn }) a n in
        (h, is, rw (ran, ◌>>=◌) (ap some acted), at, same)

    module _ (ed : Editor) (readline : ReadlineLaws ed) where
      -- As long as both sides take each key alike, the program goes on, and the remote editor that
      -- reads the bytes that have been put in the queue shows the line of the shadow buffer.
      pub press_keys-InStep :
          (keys : List (Option ℕ × KeyEvent)) (m : Main vt db commands) (s : ed.State)
          → AllDown keys
          → IsValid m.app.shadow
          → InStep ed m.app.shadow s
          → AllFollowed vt db m.app m.conn keys
          → (m' : Main vt db commands) × (is : List SessionInput) × (press_keys m keys
              ≡ some (false, m'))
            × (laws.queued m'.handle ≡ laws.queued m.handle ++ is)
            × InStep ed m'.app.shadow (ed.read s (bytes_in is))
      unfolding press_keys handle_terminal_event
      press_keys-InStep [] m s down v h f =
          (m, [], refl, sym (append-nil (laws.queued m.handle)), rw (readline.read_nil s) h)
      press_keys-InStep ((clock, key) ∷ keys) m s (down, downs) v h (followed, more) =
          let (app, conn, action, ran, answer, valid) =
            on_key-Answers vt db m.app m.conn clock key v in
          let stays = edit_key-stays vt db m.app app m.conn conn clock key action followed.0 ran in
          let (handle, is, pressed, at, same) =
            on_key_event-queued m clock key key.kind app conn action down ran stays in
          let step =
            Answer-InStep ed readline vt db m.app app m.conn conn key action s h followed answer in
          let (m', js, rest, at', in_step) =
            press_keys-InStep keys (record { app = app; conn = conn; handle = handle })
              (ed.read s (sent_by action)) downs valid step (more app conn action ran) in
          (
            m',
            is ++ js,
            rw (pressed, ◌>>=◌) rest,
            at' ∙ ap (λ q. q ++ js) at ∙ append_assoc (laws.queued m.handle) is js,
            rw (bytes_in-append is js, same, readline.read-append s (sent_by action) (bytes_in js))
                in_step,
          )
