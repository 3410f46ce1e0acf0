-- ===== src/App/Valid.antt =====
-- `on_key` of crates/tiny-ssh-cli/src/app.rs: it never panics, and what it sends and what it does to
-- the shadow buffer go together.
use tiny_ssh.Base.{
  ℕ, ◌≤◌, ◌≡◌, ◌≢◌, ◌⊎◌, refl, sym, ◌∙◌, ap, Bool, true, not, ◌&&◌, ◌||◌, Option, some, [], ◌∷◌,
  ◌++◌, append-nil, ◌>>=◌, length, length-append, take, drop, take-append-drop, length-take, arith,
  Bool-cases, Option-cases, inl, inr, Bytes,
}
use tiny_ssh.Utf8.{Text, into_bytes}
use tiny_ssh.Keys.{KeyCode, right, KeyEvent, encode}
use tiny_ssh.History.Database.{Sqlite}
use tiny_ssh.Terminal
use tiny_ssh.Terminal.{Vt}
use tiny_ssh.App.{Action, send, quit, toggle_mouse_capture, copy_to_clipboard, nothing, Shadow, App}
use tiny_ssh.App.Suggestion.{refresh_suggestion-Refreshed}
use tiny_ssh.App.Input.{
  apply_to_shadow, is_char, is_right, accepted, push_suggestion, place_of, accept, forward, on_key,
  join_lines,
}
use tiny_ssh.App.Editing.{Line, line, edited}
use tiny_ssh.App.Shown.{Shows}
use tiny_ssh.App.Refine.{IsProper, apply_code-Yields}

-- The cursor is inside the buffer, and the ghost text is not empty.
pub record IsValid (s : Shadow) : Type 0 where
  pub cursor-le-length : s.shadow_cursor ≤ length s.shadow_input
  pub is_proper : IsProper s

-- The line that a shadow buffer shows.
abbrev pub line_of : Shadow → Line
line_of s = line (take s.shadow_cursor s.shadow_input) (drop s.shadow_cursor s.shadow_input)

Shows-line_of : (s : Shadow) → s.shadow_cursor ≤ length s.shadow_input → Shows s (line_of s)
Shows-line_of s h = record {
  input_is = sym (take-append-drop s.shadow_cursor s.shadow_input);
  cursor_is = omega (arith, length-take s.shadow_cursor s.shadow_input);
}

IsValid-Shows : (s : Shadow) (a : Line) → Shows s a → IsProper s → IsValid s
IsValid-Shows s a h p = record {
  cursor-le-length =
      omega (arith, ap length h.input_is, h.cursor_is, length-append a.before a.behind);
  is_proper = p;
}

-- Ctrl and Shift with one of two characters.
abbrev is_chord : KeyEvent → ℕ → ℕ → Bool
is_chord key c d =
    (key.modifiers.control && key.modifiers.shift) && (is_char key.code c || is_char key.code d)

is_right_sound : (k : KeyCode) → is_right k ≡ true → k ≡ right
is_right_sound right h = refl
is_right_sound _ h = cc

pub accepted-some :
    (key : KeyEvent) (s : Shadow) {rest : Text}
    → accepted key s ≡ some rest
    → (s.suggestion ≡ some rest) × (key.code ≡ right) × (s.shadow_cursor ≡ length s.shadow_input)
unfolding accepted
accepted-some key s h = (ground arith, is_right_sound key.code (ground arith), ground arith)

module _ (vt : Vt) (db : Sqlite) where
  open db use {Conn}

  -- The four ways in which a key is answered.
  pub data Answer (app : App vt) (conn : Conn) (key : KeyEvent) (app' : App vt) (conn' : Conn)
      (action : Action) : Type 0 where
    -- Taken locally: nothing is sent, and the buffer stays.
    kept_local :
        app'.shadow ≡ app.shadow
        → conn' ≡ conn
        → key.modifiers.control ≡ true
        → (action ≡ quit) ⊎ (action ≡ toggle_mouse_capture) ⊎ (action ≡ copy_to_clipboard)
        → Answer app conn key app' conn' action
    -- The ghost text is accepted at the end of the buffer: its bytes are sent, and the buffer grows
    -- by it.
    accepted_ghost :
        (rest : Text)
        → app.shadow.suggestion ≡ some rest
        → rest ≢ []
        → key.code ≡ right
        → app.shadow.shadow_cursor ≡ length app.shadow.shadow_input
        → conn' ≡ conn
        → action ≡ send (into_bytes rest)
        → Shows app'.shadow (line (app.shadow.shadow_input ++ rest) [])
        → Answer app conn key app' conn' action
    -- A key without a sequence: nothing happens.
    ignored :
        encode key (Terminal.mode vt app.terminal) ≡ []
        → app' ≡ app
        → conn' ≡ conn
        → action ≡ nothing
        → Answer app conn key app' conn' action
    -- The key's sequence is sent, and the buffer is edited by the same key.
    sent :
        action ≡ send (encode key (Terminal.mode vt app.terminal))
        → action ≢ send []
        → Shows app'.shadow (edited key.modifiers.control key.code (line_of app.shadow))
        → Answer app conn key app' conn' action

  -- A result of `on_key` that is such an answer, with a valid buffer.
  abbrev pub Answers : App vt → Conn → KeyEvent → Option (App vt × Conn × Action) → Type 0
  Answers app conn key o =
      (app' : App vt) × (conn' : Conn) × (action : Action) × (o ≡ some (app', conn', action))
      × Answer app conn key app' conn' action
      × IsValid app'.shadow

  accept-Answers :
      (app : App vt) (conn : Conn) (key : KeyEvent) (rest : Text)
      → IsValid app.shadow
      → app.shadow.suggestion ≡ some rest
      → key.code ≡ right
      → app.shadow.shadow_cursor ≡ length app.shadow.shadow_input
      → Answers app conn key (accept vt db app conn rest)
  unfolding accept
  accept-Answers app conn key rest v g k at_end =
      let pushed = push_suggestion app.shadow rest in
      let (s, ran, r) = refresh_suggestion-Refreshed db conn (place_of vt db app) pushed in
      let shows : Shows s (line (app.shadow.shadow_input ++ rest) []) = record {
        input_is =
            ap (λ t. t.shadow_input) r.rest_kept
            ∙ sym (append-nil (app.shadow.shadow_input ++ rest));
        cursor_is = ap (λ t. t.shadow_cursor) r.rest_kept;
      } in
      (
        record app { shadow = s },
        conn,
        send (into_bytes rest),
        rw (ran, ◌>>=◌),
        accepted_ghost rest g (v.is_proper rest g) k at_end refl refl shows,
        IsValid-Shows s _ shows (λ t q. (r.is_ghost t q).ghost-ne-nil),
      )

  forward-Answers :
      (app : App vt) (conn : Conn) (clock : Option ℕ) (key : KeyEvent) (bytes : Bytes)
      → IsValid app.shadow
      → encode key (Terminal.mode vt app.terminal) ≡ bytes
      → Answers app conn key (forward vt db app conn clock key)
  unfolding forward apply_to_shadow
  forward-Answers app conn clock key [] v e =
      (app, conn, nothing, rw (e, forward), ignored e refl refl refl, v)
  forward-Answers app conn clock key (b ∷ bs) v e =
      let (s, conn', ran, shows, proper) =
        apply_code-Yields db (place_of vt db app) clock key.modifiers.control key.code app.shadow
          conn (line_of app.shadow) (Shows-line_of app.shadow v.cursor-le-length) v.is_proper in
      (
        record app { shadow = s },
        conn',
        send (b ∷ bs),
        rw (e, forward, ran, ◌>>=◌),
        sent (ap send (sym e)) (λ q. cc) shows,
        IsValid-Shows s _ shows proper,
      )

  -- Every key, in every valid state: `on_key` does not panic, leaves a valid buffer, and either
  -- keeps the key local, or accepts the ghost text at the end of the buffer, or ignores the key, or
  -- sends its sequence and edits the buffer by it.
  pub on_key-Answers :
      (app : App vt) (conn : Conn) (clock : Option ℕ) (key : KeyEvent)
      → IsValid app.shadow
      → Answers app conn key (on_key vt db app conn clock key)
  unfolding on_key
  on_key-Answers app conn clock key v =
      elim (Bool-cases (key.modifiers.control && is_char key.code b'q')) [
        | inl t ↦ rw t (app, conn, quit, refl, kept_local refl refl (ground arith) (inl refl), v)
        | inr t ↦ rw t (elim (Bool-cases (is_chord key b'm' b'M')) [
          | inl t ↦ rw t (
            record app { mouse_capture = not app.mouse_capture; mouse_capture_changed = true },
            conn,
            toggle_mouse_capture,
            refl,
            kept_local refl refl (ground arith) (inr (inl refl)),
            v,
          )
          | inr t ↦ rw t (elim (Bool-cases (is_chord key b'c' b'C')) [
            | inl t ↦ rw t (
              record app {
                pending_clipboard = some (join_lines (Terminal.screen_text vt app.terminal));
              },
              conn,
              copy_to_clipboard,
              refl,
              kept_local refl refl (ground arith) (inr (inr refl)),
              v,
            )
            | inr t ↦ rw t (elim (Option-cases (accepted key app.shadow)) [
              | inl n ↦ rw n (forward-Answers app conn clock key _ v refl)
              | inr (rest, g) ↦
                  let (held, code, at_end) = accepted-some key app.shadow g in
                  rw g (accept-Answers app conn key rest v held code at_end)
            ])
          ])
        ])
      ]
