-- ===== src/App/Typing.antt =====
-- Keys in a row through `on_key` of crates/tiny-ssh-cli/src/app.rs, and the remote line editor that
-- reads what they send.
use tiny_ssh.Base.{
  ℕ, ◌≡◌, refl, sym, ◌∙◌, ap, subst, Option, some, List, [], ◌∷◌, ◌++◌, ◌>>=◌, append-nil,
  append_assoc, length, Bytes, inl, inr,
}
use tiny_ssh.Utf8.{Text, into_bytes, encode_utf8}
use tiny_ssh.Keys.{right, KeyEvent}
use tiny_ssh.History.Database.{Sqlite}
use tiny_ssh.Terminal
use tiny_ssh.Terminal.{Vt}
use tiny_ssh.App.{App, Action, send, quit, toggle_mouse_capture, copy_to_clipboard, nothing, Shadow}
use tiny_ssh.App.Word.{take-length-append, drop-length-append}
use tiny_ssh.App.Editing.{Line, line, edited}
use tiny_ssh.App.Shown.{Shows}
use tiny_ssh.App.Input.{on_key}
use tiny_ssh.App.Valid.{
  IsValid, line_of, Answer, kept_local, accepted_ghost, ignored, sent, on_key-Answers,
}
use tiny_ssh.App.Remote.{Editor, ReadlineLaws, AllPrintable, Becomes}
use tiny_ssh.App.InStep.{IsEditKey, IsPlainKey, IsAlike, key_iff}

-- The bytes that an action sends.
unfoldable pub sent_by : Action → Bytes
sent_by (send bytes) = bytes
sent_by quit = []
sent_by toggle_mouse_capture = []
sent_by copy_to_clipboard = []
sent_by nothing = []

line_of-Shows : (s : Shadow) (a : Line) → Shows s a → line_of s ≡ a
line_of-Shows s a h = rw (
  h.input_is,
  h.cursor_is,
  take-length-append a.before a.behind,
  drop-length-append a.before a.behind,
)

-- A shadow buffer shows one line.
pub Shows-unique : (s : Shadow) (a b : Line) → Shows s a → Shows s b → a ≡ b
Shows-unique s a b g h = sym (line_of-Shows s a g) ∙ line_of-Shows s b h

-- A key that both sides take alike; a ghost text that Right accepts is of printable characters.
abbrev pub IsFollowed : KeyEvent → Shadow → Type 0
IsFollowed key s =
    IsEditKey key.code key.modifiers.control key.modifiers.alt
    × IsPlainKey key.code key.modifiers.control (line_of s)
    × IsAlike key.code key.modifiers.control (line_of s)
    × ((rest : Text) → key.code ≡ right → s.suggestion ≡ some rest → AllPrintable rest)

module _ (vt : Vt) (db : Sqlite) where
  open db use {Conn}

  -- Keys one after the other, and all that they send.
  unfoldable pub type_keys :
      App vt → Conn → List (Option ℕ × KeyEvent) → Option (App vt × Conn × Bytes)
  type_keys app conn [] = some (app, conn, [])
  type_keys app conn ((clock, key) ∷ keys) =
      on_key vt db app conn clock key >>= λ (app', conn', action).
      type_keys app' conn' keys >>= λ (app'', conn'', bytes).
      some (app'', conn'', sent_by action ++ bytes)

  -- Each key is one that both sides take alike, in the state in which it comes.
  abbrev pub AllFollowed : App vt → Conn → List (Option ℕ × KeyEvent) → Type 0
  AllFollowed app conn [] = Unit
  AllFollowed app conn ((clock, key) ∷ keys) =
      IsFollowed key app.shadow
      × ((app' : App vt) (conn' : Conn) (action : Action)
          → on_key vt db app conn clock key ≡ some (app', conn', action)
          → AllFollowed app' conn' keys)

-- The remote editor is ready, and the shadow buffer shows the line that it edits.
abbrev pub InStep : (ed : Editor) → Shadow → ed.State → Type 0
InStep ed shadow s = ed.IsReady s × Shows shadow (ed.shows s)

module _ (ed : Editor) (laws : ReadlineLaws ed) where
  read-into_bytes :
      (t : Text) (s : ed.State)
      → ed.IsReady s
      → AllPrintable t
      → Becomes ed s (into_bytes t) (line ((ed.shows s).before ++ t) (ed.shows s).behind)
  unfolding into_bytes
  read-into_bytes [] s ready h = rw (laws.read_nil s, append-nil (ed.shows s).before) (ready, refl)
  read-into_bytes (c ∷ t) s ready (p, h) =
      let (ready', inserted) = laws.self_insert s c ready p in
      let (ready'', rest) = read-into_bytes t (ed.read s (encode_utf8 c)) ready' h in
      rw (laws.read-append s (encode_utf8 c) (into_bytes t)) (
        ready'',
        rest
            ∙ ap (λ (a : Line). line (a.before ++ t) a.behind) inserted
            ∙ ap (λ l. line l (ed.shows s).behind) (append_assoc (ed.shows s).before (c ∷ []) t),
      )

  module _ (vt : Vt) (db : Sqlite) where
    open db use {Conn}

    silent-InStep :
        (app app' : App vt) (action : Action) (s : ed.State)
        → InStep ed app.shadow s
        → app'.shadow ≡ app.shadow
        → sent_by action ≡ []
        → InStep ed app'.shadow (ed.read s (sent_by action))
    silent-InStep app app' action s (ready, h) kept none_sent =
        rw (none_sent, laws.read_nil s) (ready, subst (λ x. Shows x (ed.shows s)) (sym kept) h)

    -- What the ghost text sends is inserted at the end of the remote line.
    ghost-InStep :
        (app app' : App vt) (rest : Text) (s : ed.State)
        → InStep ed app.shadow s
        → app.shadow.shadow_cursor ≡ length app.shadow.shadow_input
        → AllPrintable rest
        → Shows app'.shadow (line (app.shadow.shadow_input ++ rest) [])
        → InStep ed app'.shadow (ed.read s (into_bytes rest))
    ghost-InStep app app' rest s (ready, h) at_end p shows =
        let at : ed.shows s ≡ line app.shadow.shadow_input [] =
          Shows-unique app.shadow _ _ h
            (record { input_is = sym (append-nil app.shadow.shadow_input); cursor_is = at_end }) in
        let (ready', read) = read-into_bytes rest s ready p in
        let shown = read ∙ ap (λ (a : Line). line (a.before ++ rest) a.behind) at in
        (ready', subst (Shows app'.shadow) (sym shown) shows)

    pub Answer-InStep :
        (app app' : App vt) (conn conn' : Conn) (key : KeyEvent) (action : Action) (s : ed.State)
        → InStep ed app.shadow s
        → IsFollowed key app.shadow
        → Answer vt db app conn key app' conn' action
        → InStep ed app'.shadow (ed.read s (sent_by action))
    unfolding sent_by
    Answer-InStep app app' conn conn' key action s h f (kept_local kept _ _ (inl a)) =
        silent-InStep app app' action s h kept (ap sent_by a)
    Answer-InStep app app' conn conn' key action s h f (kept_local kept _ _ (inr (inl a))) =
        silent-InStep app app' action s h kept (ap sent_by a)
    Answer-InStep app app' conn conn' key action s h f (kept_local kept _ _ (inr (inr a))) =
        silent-InStep app app' action s h kept (ap sent_by a)
    Answer-InStep app app' conn conn' key action s h f (ignored _ kept _ a) =
        silent-InStep app app' action s h (ap (λ (x : App vt). x.shadow) kept) (ap sent_by a)
    Answer-InStep app app' conn conn' key action s h (_, _, _, p)
          (accepted_ghost rest ghost _ code at_end _ a shows) =
        rw a (ghost-InStep app app' rest s h at_end (p rest code ghost) shows)
    Answer-InStep app app' conn conn' key action s (ready, h) (known, plain, alike, _)
          (sent a _ shows) =
        let at : line_of app.shadow ≡ ed.shows s = line_of-Shows app.shadow (ed.shows s) h in
        let (ready', taken) =
          key_iff ed laws s key (Terminal.mode vt app.terminal) ready known
            (subst (IsPlainKey key.code key.modifiers.control) at plain) in
        let read = taken.1 (subst (IsAlike key.code key.modifiers.control) at alike) in
        rw a (
          ready',
          subst (Shows app'.shadow) (ap (edited key.modifiers.control key.code) at ∙ sym read)
              shows,
        )

    -- A ready remote editor shows the line of a valid shadow buffer. Then, for keys that both sides
    -- take alike, Ctrl-W only where the white space before the cursor is spaces and tabs, no key
    -- fails, and at the end the editor, having read all that was sent, shows the
    -- line of the shadow buffer again, its cursor included, and the buffer is valid.
    pub type_keys-InStep :
        (keys : List (Option ℕ × KeyEvent)) (app : App vt) (conn : Conn) (s : ed.State)
        → IsValid app.shadow
        → InStep ed app.shadow s
        → AllFollowed vt db app conn keys
        → (app' : App vt) × (conn' : Conn) × (bytes : Bytes) × (type_keys vt db app conn keys
            ≡ some (app', conn', bytes))
          × InStep ed app'.shadow (ed.read s bytes)
          × IsValid app'.shadow
    unfolding type_keys
    type_keys-InStep [] app conn s v h f = (app, conn, [], refl, rw (laws.read_nil s) h, v)
    type_keys-InStep ((clock, key) ∷ keys) app conn s v h (followed, more) =
        let (app', conn', action, ran, answer, valid) = on_key-Answers vt db app conn clock key v in
        let step = Answer-InStep app app' conn conn' key action s h followed answer in
        let (app'', conn'', bytes, rest, in_step, valid') =
          type_keys-InStep keys app' conn' (ed.read s (sent_by action)) valid step
            (more app' conn' action ran) in
        (
          app'',
          conn'',
          sent_by action ++ bytes,
          rw (ran, ◌>>=◌, rest, ◌>>=◌),
          rw (laws.read-append s (sent_by action) bytes) in_step,
          valid',
        )
