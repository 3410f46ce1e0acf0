-- ===== src/App/Refine.antt =====
-- The shadow buffer is a line editor: what each key does to the text before and behind the cursor.
use tiny_ssh.Base.{
  ℕ, ◌+◌, ◌-◌, ◌≡◌, ◌≢◌, refl, ◌∙◌, ap, Bool, true, false, Option, some, [], ◌++◌, ◌>>=◌, ltb,
  if◌then◌else◌, length,
}
use tiny_ssh.Utf8.{Text}
use tiny_ssh.Keys.{
  KeyCode, char, enter, tab, back_tab, backspace, home, end, page_up, page_down, to_ascii_lowercase,
}
use tiny_ssh.History.Database.{Sqlite}
use tiny_ssh.App.{Shadow}
use tiny_ssh.App.Edit.{insert_char}
use tiny_ssh.App.Line.{insert_char-At}
use tiny_ssh.App.Suggestion.{Place, refresh_suggestion-Refreshed}
use tiny_ssh.App.Editing.{Line, moved_right, edited}
use tiny_ssh.App.Input.{
  ctrl_edit, refreshed, apply_code, move_to, clear_line, submit, record_command, drop_suggestion,
}
use tiny_ssh.App.Shown.{
  Shows, ctrl_edit-Shows, backspace_char-Shows, left-Shows, right-Shows, end-Shows, move_to-At,
}

-- A ghost text is never empty.
abbrev pub IsProper : Shadow → Type 0
IsProper s = (g : Text) → s.suggestion ≡ some g → g ≢ []

module _ (db : Sqlite) (place : Place) (clock : Option ℕ) where
  open db use {Conn}

  -- A result of `apply_to_shadow` that shows the line `a`, with a proper ghost text if any.
  abbrev pub Yields : Option (Shadow × Conn) → Line → Type 0
  Yields o a = (s : Shadow) × (conn : Conn) × (o ≡ some (s, conn)) × Shows s a × IsProper s

  refreshed-Yields :
      (conn : Conn) (edit : Option Shadow) (a : Line)
      → (s : Shadow) × (edit ≡ some s) × Shows s a
      → Yields (refreshed db place conn edit) a
  unfolding refreshed
  refreshed-Yields conn edit a (s, e, h) =
      let (s', ran, r) = refresh_suggestion-Refreshed db conn place s in
      (
        s',
        conn,
        rw (e, ran, ◌>>=◌),
        record {
          input_is = ap (λ t. t.shadow_input) r.rest_kept ∙ h.input_is;
          cursor_is = ap (λ t. t.shadow_cursor) r.rest_kept ∙ h.cursor_is;
        },
        λ g q. (r.is_ghost g q).ghost-ne-nil,
      )

  if-IsProper :
      (b : Bool) (s : Shadow) (cursor : ℕ)
      → IsProper s
      → IsProper (if b then move_to s cursor else s)
  if-IsProper true s cursor p = p
  if-IsProper false s cursor p = p

  char_edit-Shows :
      (ctrl : Bool) (c : ℕ) (s : Shadow) (a : Line)
      → Shows s a
      → (s' : Shadow) × ((if ctrl then ctrl_edit (to_ascii_lowercase c) s else insert_char c s)
          ≡ some s')
        × Shows s' (edited ctrl (char c) a)
  unfolding edited
  char_edit-Shows true c s a h = ctrl_edit-Shows (to_ascii_lowercase c) s a h
  char_edit-Shows false c s a h = insert_char-At s c a.before a.behind h

  -- Every key edits the shadow buffer as the line editor edits its line, and no string operation
  -- on the way panics.
  pub apply_code-Yields :
      (ctrl : Bool) (code : KeyCode) (s : Shadow) (conn : Conn) (a : Line)
      → Shows s a
      → IsProper s
      → Yields (apply_code db place clock ctrl code s conn) (edited ctrl code a)
  unfolding apply_code edited moved_right
  apply_code-Yields ctrl (char c) s conn a h p =
      refreshed-Yields conn _ _ (char_edit-Shows ctrl c s a h)
  apply_code-Yields ctrl backspace s conn a h p =
      refreshed-Yields conn _ _ (backspace_char-Shows s a h)
  apply_code-Yields ctrl enter s conn a h p = (
    submit s,
    record_command db conn clock place s s.shadow_input,
    refl,
    record { input_is = refl; cursor_is = refl },
    (λ g q. cc),
  )
  apply_code-Yields ctrl KeyCode.up s conn a h p =
      (clear_line s, conn, refl, record { input_is = refl; cursor_is = refl }, (λ g q. cc))
  apply_code-Yields ctrl KeyCode.down s conn a h p =
      (clear_line s, conn, refl, record { input_is = refl; cursor_is = refl }, (λ g q. cc))
  apply_code-Yields ctrl page_up s conn a h p =
      (clear_line s, conn, refl, record { input_is = refl; cursor_is = refl }, (λ g q. cc))
  apply_code-Yields ctrl page_down s conn a h p =
      (clear_line s, conn, refl, record { input_is = refl; cursor_is = refl }, (λ g q. cc))
  apply_code-Yields ctrl KeyCode.left s conn a h p = (
    _,
    conn,
    refl,
    left-Shows s a h,
    if-IsProper (ltb 0 s.shadow_cursor) s (s.shadow_cursor - 1) p,
  )
  apply_code-Yields ctrl KeyCode.right s conn a h p = (
    _,
    conn,
    refl,
    right-Shows s a a.behind refl h,
    if-IsProper (ltb s.shadow_cursor (length s.shadow_input)) s (s.shadow_cursor + 1) p,
  )
  apply_code-Yields ctrl home s conn a h p =
      (_, conn, refl, move_to-At s a.before a.behind [] (a.before ++ a.behind) h refl, p)
  apply_code-Yields ctrl end s conn a h p = (_, conn, refl, end-Shows s a h, p)
  apply_code-Yields ctrl tab s conn a h p = (
    drop_suggestion s,
    conn,
    refl,
    record { input_is = h.input_is; cursor_is = h.cursor_is },
    (λ g q. cc),
  )
  apply_code-Yields ctrl back_tab s conn a h p = (
    drop_suggestion s,
    conn,
    refl,
    record { input_is = h.input_is; cursor_is = h.cursor_is },
    (λ g q. cc),
  )
  apply_code-Yields ctrl _ s conn a h p = (s, conn, refl, h, p)
