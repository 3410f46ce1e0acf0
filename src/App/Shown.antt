-- ===== src/App/Shown.antt =====
-- Each edit of the shadow buffer of crates/tiny-ssh-cli/src/app.rs, as an edit of the line that it
-- shows.
use tiny_ssh.Base.{
  ℕ, ◌+◌, ◌-◌, ◌≡◌, ◌⊎◌, refl, sym, ◌∙◌, ap, subst, true, false, ◌||◌, none, some, [], ◌∷◌, ◌++◌,
  append-nil, append_assoc, ltb, ◌==◌, if◌then◌else◌, length, length-append, arith, Bool-cases, inl,
  inr,
}
use tiny_ssh.Utf8.{Text}
use tiny_ssh.App.{Shadow}
use tiny_ssh.App.Edit.{backspace_char}
use tiny_ssh.App.Line.{At, backspace_char-At, backspace_char_start, kill_to_end-At}
use tiny_ssh.App.Word.{kill_word_backward-At}
use tiny_ssh.App.Editing.{Line, split_last, ctrl_edited, backspaced, moved_left, step_over}
use tiny_ssh.App.Input.{ctrl_edit, move_to, clear_line, clear_input}

-- The shadow buffer shows a line.
abbrev pub Shows : Shadow → Line → Type 0
Shows s a = At s a.before a.behind

split_last-concat : (i : Text) (c : ℕ) → split_last (i ++ c ∷ []) ≡ some (i, c)
unfolding split_last
split_last-concat [] c = refl
split_last-concat (x ∷ i) c = rw (split_last-concat i c)

split_last-start : (l : Text) → l ≡ [] → split_last l ≡ none
unfolding split_last
split_last-start l e = ap split_last e

last-cases : (l : Text) → (l ≡ []) ⊎ ((i : Text) × (c : ℕ) × (l ≡ i ++ c ∷ []))
last-cases [] = inl refl
last-cases (x ∷ l) = elim (last-cases l) [
  | inl e ↦ inr ([], x, ap (x ∷◌) e)
  | inr (i, c, e) ↦ inr (x ∷ i, c, ap (x ∷◌) e)
]

-- The cursor moved without an edit.
pub move_to-At :
    (s : Shadow) (l r l' r' : Text)
    → At s l r
    → l ++ r ≡ l' ++ r'
    → At (move_to s (length l')) l' r'
move_to-At s l r l' r' h e = record { input_is = h.input_is ∙ e; cursor_is = refl }

pub end-Shows :
    (s : Shadow) (a : Line)
    → Shows s a
    → At (move_to s (length s.shadow_input)) (a.before ++ a.behind) []
end-Shows s a h = record {
  input_is = h.input_is ∙ sym (append-nil (a.before ++ a.behind));
  cursor_is = ap length h.input_is;
}

pub ctrl_edit-Shows :
    (c : ℕ) (s : Shadow) (a : Line)
    → Shows s a
    → (s' : Shadow) × (ctrl_edit c s ≡ some s') × Shows s' (ctrl_edited c a)
unfolding ctrl_edit ctrl_edited
ctrl_edit-Shows c s a h = elim (Bool-cases (c == b'a')) [
  | inl t ↦
      rw t (move_to s 0, refl, move_to-At s a.before a.behind [] (a.before ++ a.behind) h refl)
  | inr t ↦ rw t (elim (Bool-cases (c == b'e')) [
    | inl t ↦ rw t (move_to s (length s.shadow_input), refl, end-Shows s a h)
    | inr t ↦ rw t (elim (Bool-cases (c == b'u')) [
      | inl t ↦ rw t (clear_input s, refl, record { input_is = refl; cursor_is = refl })
      | inr t ↦ rw t (elim (Bool-cases (c == b'k')) [
        | inl t ↦ rw t (kill_to_end-At s a.before a.behind h)
        | inr t ↦ rw t (elim (Bool-cases (c == b'w')) [
          | inl t ↦ rw t (kill_word_backward-At s a.before a.behind h)
          | inr t ↦ rw t (elim (Bool-cases (c == b'c' || c == b'd')) [
            | inl t ↦ rw t (clear_line s, refl, record { input_is = refl; cursor_is = refl })
            | inr t ↦ rw t (s, refl, h)
          ])
        ])
      ])
    ])
  ])
]

pub backspace_char-Shows :
    (s : Shadow) (a : Line)
    → Shows s a
    → (s' : Shadow) × (backspace_char s ≡ some s') × Shows s' (backspaced a)
unfolding backspaced
backspace_char-Shows s a h = elim (last-cases a.before) [
  | inl e ↦
      rw (split_last-start a.before e, backspaced)
        (s, backspace_char_start s a.behind (subst (λ l. At s l a.behind) e h), h)
  | inr (i, c, e) ↦
      rw (ap split_last e ∙ split_last-concat i c, backspaced)
        (backspace_char-At s i c a.behind (subst (λ l. At s l a.behind) e h))
]

pub left-Shows :
    (s : Shadow) (a : Line)
    → Shows s a
    → Shows (if ltb 0 s.shadow_cursor then move_to s (s.shadow_cursor - 1) else s) (moved_left a)
unfolding moved_left
left-Shows s a h = elim (last-cases a.before) [
  | inl e ↦
      let z : s.shadow_cursor ≡ 0 = h.cursor_is ∙ ap length e in
      let t : ltb 0 s.shadow_cursor ≡ false = ground arith in
      rw (t, split_last-start a.before e, moved_left) h
  | inr (i, c, e) ↦
      let n : s.shadow_cursor ≡ length i + 1 =
        h.cursor_is ∙ ap length e ∙ length-append i (c ∷ []) in
      let m : s.shadow_cursor - 1 ≡ length i = omega arith in
      let t : ltb 0 s.shadow_cursor ≡ true = ground arith in
      rw (t, m, ap split_last e ∙ split_last-concat i c, moved_left)
        (move_to-At s a.before a.behind i (c ∷ a.behind) h
          (ap (λ l. l ++ a.behind) e ∙ append_assoc i (c ∷ []) a.behind))
]

pub right-Shows :
    (s : Shadow) (a : Line) (r : Text)
    → a.behind ≡ r
    → Shows s a
    → Shows
        (if ltb s.shadow_cursor (length s.shadow_input) then move_to s (s.shadow_cursor + 1) else s)
        (step_over r a)
unfolding step_over
right-Shows s a [] e h =
    let t : ltb s.shadow_cursor (length s.shadow_input) ≡ false =
      ground (arith, ap length h.input_is, length-append a.before a.behind, ap length e) in
    rw t h
right-Shows s a (c ∷ r) e h =
    let t : ltb s.shadow_cursor (length s.shadow_input) ≡ true =
      ground (arith, ap length h.input_is, length-append a.before a.behind, ap length e) in
    let m : s.shadow_cursor + 1 ≡ length (a.before ++ c ∷ []) =
      omega (arith, h.cursor_is, length-append a.before (c ∷ [])) in
    rw (t, m)
      (move_to-At s a.before a.behind (a.before ++ c ∷ []) r h
        (ap (a.before ++◌) e ∙ sym (append_assoc a.before (c ∷ []) r)))
