-- ===== src/Terminal/Screen.antt =====
-- `screen_text` of crates/tiny-ssh-cli/src/term.rs: the lines of the screen.
use tiny_ssh.Base.{
  ℕ, ◌≡◌, ◌≢◌, refl, sym, ap, ◌∙◌, Bool, true, false, List, [], ◌∷◌, ◌++◌, map, append-nil,
  append_assoc, ℤ, int_eq, int_eq_iff, Bool-cases, inl, inr,
}
use tiny_ssh.Utf8.{Text}
use tiny_ssh.Terminal.{
  Cell, Vt, Terminal, Collect, trim_end, flush, start_line, put_char, collect, collect_start,
  i32_min, screen_text,
}

-- A row of the grid with at least one cell: whether a cell is a spacer, and its character.
pub record Row : Type 0 where
  pub line : ℤ
  pub first : Bool × ℕ
  pub rest : List (Bool × ℕ)

abbrev cell : ℤ → Bool × ℕ → Cell
cell line (spacer, c) = record { line = line; is_spacer = spacer; c = c }

abbrev cells : ℤ → List (Bool × ℕ) → List Cell
cells line [] = []
cells line (x ∷ xs) = cell line x ∷ cells line xs

-- The grid row by row, from left to right.
abbrev pub display : List Row → List Cell
display [] = []
display (r ∷ rs) = cell r.line r.first ∷ (cells r.line r.rest ++ display rs)

-- The character of a cell, unless it is the spacer of a wide one.
abbrev shown : Bool × ℕ → Text
shown (true, c) = []
shown (false, c) = c ∷ []

abbrev chars : List (Bool × ℕ) → Text
chars [] = []
chars (x ∷ xs) = shown x ++ chars xs

abbrev pub row_text : Row → Text
row_text r = trim_end (chars (r.first ∷ r.rest))

-- Each row has another line than the row before it, and none has the number that stands for no
-- line.
abbrev pub AreRows : ℤ → List Row → Type 0
AreRows before [] = Unit
AreRows before (r ∷ rs) = (r.line ≢ before) × (r.line ≢ i32_min) × AreRows r.line rs

int_eq_refl : (a : ℤ) → int_eq a a ≡ true
int_eq_refl a = (int_eq_iff a a).1 refl

int_ne : (a b : ℤ) → a ≢ b → int_eq a b ≡ false
int_ne a b h = elim (Bool-cases (int_eq a b)) [
  | inl t ↦ absurd (h ((int_eq_iff a b).0 t))
  | inr t ↦ t
]

abbrev at : List Text → ℤ → Text → Collect
at lines line text = record { lines = lines; current_line = line; current_text = text }

put_char-at :
    (lines : List Text) (line : ℤ) (text : Text) (x : Bool × ℕ)
    → put_char (at lines line text) (cell line x) ≡ at lines line (text ++ shown x)
unfolding put_char
put_char-at lines line text (true, c) = rw append-nil
put_char-at lines line text (false, c) = refl

start_line-same :
    (lines : List Text) (line : ℤ) (text : Text)
    → start_line (at lines line text) line ≡ at lines line text
unfolding start_line
start_line-same lines line text = rw (start_line, int_eq_refl line) refl

collect-rest :
    (lines : List Text) (line : ℤ) (xs : List (Bool × ℕ)) (text : Text) (more : List Cell)
    → collect (at lines line text) (cells line xs ++ more)
      ≡ collect (at lines line (text ++ chars xs)) more
unfolding collect
collect-rest lines line [] text more = rw append-nil
collect-rest lines line (x ∷ xs) text more =
    ap (λ s. collect (put_char s (cell line x)) (cells line xs ++ more))
      (start_line-same lines line text)
    ∙ ap (λ s. collect s (cells line xs ++ more)) (put_char-at lines line text x)
    ∙ collect-rest lines line xs (text ++ shown x) more
    ∙ ap (λ t. collect (at lines line t) more) (append_assoc text (shown x) (chars xs))

start_line-next :
    (s : Collect) (line : ℤ) → line ≢ s.current_line → start_line s line ≡ at (flush s) line []
unfolding start_line
start_line-next s line h = rw (start_line, int_ne line s.current_line h) refl

flush-at :
    (lines : List Text) (line : ℤ) (text : Text)
    → line ≢ i32_min
    → flush (at lines line text) ≡ lines ++ trim_end text ∷ []
unfolding flush
flush-at lines line text h = rw (flush, int_ne line i32_min h) refl

collect-display :
    (rs : List Row) (s : Collect)
    → AreRows s.current_line rs
    → collect s (display rs) ≡ flush s ++ map row_text rs
unfolding collect
collect-display [] s h = sym (append-nil (flush s))
collect-display (r ∷ rs) s h =
    ap (λ t. collect (put_char t (cell r.line r.first)) (cells r.line r.rest ++ display rs))
      (start_line-next s r.line h.0)
    ∙ ap (λ t. collect t (cells r.line r.rest ++ display rs))
        (put_char-at (flush s) r.line [] r.first)
    ∙ collect-rest (flush s) r.line r.rest (shown r.first) (display rs)
    ∙ collect-display rs (at (flush s) r.line (chars (r.first ∷ r.rest))) h.2
    ∙ ap (◌++ (map row_text rs)) (flush-at (flush s) r.line (chars (r.first ∷ r.rest)) h.1)
    ∙ append_assoc (flush s) (row_text r ∷ []) (map row_text rs)

module _ (vt : Vt) where
  -- If the terminal shows the grid row by row, the text of the screen has one line for each row:
  -- its characters without the spacers of wide ones, and without white space at the end.
  pub screen_text-display :
      (t : Terminal vt) (rs : List Row)
      → vt.display_iter t.inner ≡ display rs
      → AreRows i32_min rs
      → screen_text vt t ≡ map row_text rs
  unfolding screen_text flush
  screen_text-display t rs e h = ap (collect collect_start) e ∙ collect-display rs collect_start h
