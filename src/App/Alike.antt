-- ===== src/App/Alike.antt =====
-- One key in the shadow buffer of crates/tiny-ssh-cli/src/app.rs and in the remote line editor.
use tiny_ssh.Base.{ℕ, ◌≡◌, ◌↔◌, sym, subst, Option, some}
use tiny_ssh.Keys.{KeyEvent, TermMode, encode}
use tiny_ssh.History.Database.{Sqlite}
use tiny_ssh.App.{Shadow}
use tiny_ssh.App.Shown.{Shows}
use tiny_ssh.App.Suggestion.{Place}
use tiny_ssh.App.Input.{apply_code}
use tiny_ssh.App.Refine.{IsProper, apply_code-Yields}
use tiny_ssh.App.Remote.{Editor, ReadlineLaws}
use tiny_ssh.App.InStep.{IsEditKey, IsPlainKey, IsAlike, key_iff}
use tiny_ssh.App.Typing.{Shows-unique}

module _ (ed : Editor) (laws : ReadlineLaws ed) (db : Sqlite) where
  open db use {Conn}

  -- A remote editor with the bindings of readline is ready and shows the line of the shadow buffer. A
  -- key comes that edits the line: a printable character, Ctrl-A, C, E, K, L, U or W, Backspace,
  -- Enter, Left, Right, Home, End or Delete; for Ctrl-W the only white space before the cursor
  -- is spaces and tabs. Then the buffer takes the key without a panic, the editor is ready again behind
  -- its bytes, and the two show the same line exactly if the key is not Ctrl-U or Delete, or there is
  -- no text behind the cursor.
  pub apply_code_iff :
      (place : Place) (clock : Option ℕ) (shadow : Shadow) (conn : Conn) (s : ed.State)
      (key : KeyEvent) (mode : TermMode)
      → IsProper shadow
      → ed.IsReady s
      → Shows shadow (ed.shows s)
      → IsEditKey key.code key.modifiers.control key.modifiers.alt
      → IsPlainKey key.code key.modifiers.control (ed.shows s)
      → (shadow' : Shadow) × (conn' : Conn) × (apply_code db place clock key.modifiers.control
            key.code shadow conn
          ≡ some (shadow', conn'))
        × ed.IsReady (ed.read s (encode key mode))
        × (Shows shadow' (ed.shows (ed.read s (encode key mode)))
            ↔ IsAlike key.code key.modifiers.control (ed.shows s))
  apply_code_iff place clock shadow conn s key mode proper ready h known plain =
      let (shadow', conn', ran, shows, _) =
        apply_code-Yields db place clock key.modifiers.control key.code shadow conn (ed.shows s) h
          proper in
      let (ready', (to, from)) = key_iff ed laws s key mode ready known plain in
      (
        shadow',
        conn',
        ran,
        ready',
        (
          (λ q. to (Shows-unique shadow' _ _ q shows)),
          λ alike. subst (Shows shadow') (sym (from alike)) shows,
        ),
      )
