-- ===== src/Ui/Copy.antt =====
-- What is copied from the screen is what the frame shows of it: the loops of `screen_text` in
-- crates/tiny-ssh-cli/src/term.rs and of `render_grid` in ui.rs.
use tiny_ssh.Base.{
  ◌≡◌, ◌≢◌, refl, sym, ap, ◌∙◌, not, List, [], ◌∷◌, map, map-append, All, arith, ℤ, int_eq,
  int_eq_iff, Bool-cases, inl, inr,
}
use tiny_ssh.Terminal.{
  Cell, Vt, Collect, trim_end, flush, start_line, put_char, collect, collect_start, i32_min,
  screen_text,
}
use tiny_ssh.App.{App}
use tiny_ssh.Ui.{Ratatui, push_line, next_line, gather, grid_lines}

-- The state of the one loop as the other has it.
abbrev trimmed : Collect → Collect
trimmed u = record {
  lines = map trim_end u.lines;
  current_line = u.current_line;
  current_text = u.current_text;
}

-- Before the first line there is no text.
abbrev IsIdle : Collect → Type 0
IsIdle u = u.current_line ≡ i32_min → u.current_text ≡ []

flush-trimmed : (u : Collect) → flush (trimmed u) ≡ map trim_end (push_line u)
unfolding flush push_line
flush-trimmed u = elim (Bool-cases (not (int_eq u.current_line i32_min))) [
  | inl t ↦ rw (flush, push_line, t) (sym (map-append trim_end u.lines (u.current_text ∷ [])))
  | inr f ↦ rw (flush, push_line, f) refl
]

start_line-trimmed :
    (u : Collect) (line : ℤ) → IsIdle u → start_line (trimmed u) line ≡ trimmed (next_line u line)
unfolding start_line next_line
start_line-trimmed u line idle = elim (Bool-cases (not (int_eq line u.current_line))) [
  | inl t ↦ elim (Bool-cases (not (int_eq u.current_line i32_min))) [
    | inl s ↦ rw (start_line, next_line, t, s, flush-trimmed) refl
    | inr f ↦
        rw
          (
            start_line,
            next_line,
            t,
            f,
            flush-trimmed,
            idle ((int_eq_iff u.current_line i32_min).0 (ground arith)),
          )
          refl
  ]
  | inr f ↦ rw (start_line, next_line, f) refl
]

put_char-trimmed :
    (u : Collect) (cell : Cell) → put_char (trimmed u) cell ≡ trimmed (put_char u cell)
unfolding put_char
put_char-trimmed u cell = elim (Bool-cases (not cell.is_spacer)) [
  | inl t ↦ rw (put_char, t) refl
  | inr f ↦ rw (put_char, f) refl
]

next_line-current : (u : Collect) (line : ℤ) → (next_line u line).current_line ≡ line
unfolding next_line
next_line-current u line = elim (Bool-cases (not (int_eq line u.current_line))) [
  | inl t ↦ rw (next_line, t) refl
  | inr f ↦ rw (next_line, f) (sym ((int_eq_iff line u.current_line).0 (ground arith)))
]

put_char-current : (u : Collect) (cell : Cell) → (put_char u cell).current_line ≡ u.current_line
unfolding put_char
put_char-current u cell = elim (Bool-cases (not cell.is_spacer)) [
  | inl t ↦ rw (put_char, t) refl
  | inr f ↦ rw (put_char, f) refl
]

-- Each cell has the number of a line.
abbrev pub HaveLines : List Cell → Type 0
HaveLines = All (λ c. c.line ≢ i32_min)

collect-gather :
    (cells : List Cell) (u : Collect)
    → IsIdle u
    → HaveLines cells
    → collect (trimmed u) cells ≡ map trim_end (gather u cells)
unfolding collect gather
collect-gather [] u idle h = flush-trimmed u
collect-gather (c ∷ cells) u idle h =
    let v = next_line u c.line in
    ap (λ s. collect (put_char s c) cells) (start_line-trimmed u c.line idle)
    ∙ ap (λ s. collect s cells) (put_char-trimmed v c)
    ∙ collect-gather cells (put_char v c)
        (λ e. absurd (h.0 (sym (next_line-current u c.line) ∙ sym (put_char-current v c) ∙ e))) h.1

module _ (vt : Vt) (ui : Ratatui) where
  -- The text that is copied to the clipboard is line by line the text that the frame shows, without
  -- white space at the end of a line.
  pub screen_text-grid_lines :
      (app : App vt)
      → HaveLines (vt.display_iter app.terminal.inner)
      → screen_text vt app.terminal ≡ map trim_end (grid_lines vt ui app)
  unfolding screen_text grid_lines
  screen_text-grid_lines app h =
      collect-gather (vt.display_iter app.terminal.inner) collect_start (λ e. refl) h
