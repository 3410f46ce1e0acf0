-- ===== src/App/Readline.antt =====
-- A line editor in memory, byte by byte, that has the bindings of App.Remote.
use tiny_ssh.Base.{
  ℕ, suc, zero, ◌+◌, ◌*◌, ◌-◌, ◌≡◌, ◌≢◌, refl, ◌∙◌, ap, [], ◌∷◌, ◌++◌, Bytes, arith, if◌then◌else◌,
  ltb, ◌==◌, ◌||◌, Bool-cases, inl, inr, ◌<◌, ◌≤◌, ◌%◌, ◌/◌,
}
use tiny_ssh.Utf8.{encode_utf8}
use tiny_ssh.App.Rubout.{rubbed_out, LastWord-rubbed_out}
use tiny_ssh.App.Editing.{Line, line, backspaced, moved_left, moved_right}
use tiny_ssh.App.Remote.{Editor, IsPrintable, ReadlineLaws, deleted, cursor_key, Becomes}

-- What has been read of a sequence or a character: the continuation bytes due, and the value so far.
pub data Pending : Type 0 where
  ready escape intro delete_key : Pending
  due : ℕ → ℕ → Pending

pub record Reader : Type 0 where
  pub pending : Pending
  pub shown : Line

abbrev pub reader : Pending → Line → Reader
reader p a = record { pending = p; shown = a }

abbrev inserted : ℕ → Line → Line
inserted c a = line (a.before ++ c ∷ []) a.behind

unfoldable pub control : ℕ → Line → Line
control b a =
    if b == 0x01
    then line [] (a.before ++ a.behind)
    else if b == 0x05
    then line (a.before ++ a.behind) []
    else if b == 0x0b
    then line a.before []
    else if b == 0x17
    then line (rubbed_out a.before) a.behind
    else if b == 0x15
    then line [] a.behind
    else if b == 0x03 || b == 0x0d
    then line [] []
    else a

-- A byte that begins a key.
unfoldable pub begin : ℕ → Line → Reader
begin b a =
    if b == 0x1b
    then reader escape a
    else if b == 0x7f
    then reader ready (backspaced a)
    else if ltb b 0x20
    then reader ready (control b a)
    else if ltb b 0x80
    then reader ready (inserted b a)
    else if ltb b 0xe0
    then reader (due 0 (b - 0xc0)) a
    else if ltb b 0xf0
    then reader (due 1 (b - 0xe0)) a
    else reader (due 2 (b - 0xf0)) a

-- The byte behind CSI or SS3.
unfoldable pub final : ℕ → Line → Reader
final b a =
    if b == b'D'
    then reader ready (moved_left a)
    else if b == b'C'
    then reader ready (moved_right a)
    else if b == b'H'
    then reader ready (line [] (a.before ++ a.behind))
    else if b == b'F'
    then reader ready (line (a.before ++ a.behind) [])
    else if b == b'3'
    then reader delete_key a
    else reader ready a

unfoldable pub next : Pending → ℕ → Line → Reader
next ready b a = begin b a
next escape b a = reader intro a
next intro b a = final b a
next delete_key b a = reader ready (deleted a)
next (due zero v) b a = reader ready (inserted (v * 64 + (b - 0x80)) a)
next (due (suc n) v) b a = reader (due n (v * 64 + (b - 0x80))) a

unfoldable pub read_all : Reader → Bytes → Reader
read_all s [] = s
read_all s (b ∷ bs) = read_all (next s.pending b s.shown) bs

abbrev pub readline : Editor
readline = record {
  State = Reader;
  IsReady = λ s. s.pending ≡ ready;
  read = read_all;
  shows = λ s. s.shown;
}

read_all-append : (s : Reader) (xs ys : Bytes) → read_all s (xs ++ ys) ≡ read_all (read_all s xs) ys
unfolding read_all
read_all-append s [] ys = refl
read_all-append s (x ∷ xs) ys = read_all-append (next s.pending x s.shown) xs ys

begin_plain :
    (c : ℕ) (a : Line) → 0x20 ≤ c → c < 0x80 → c ≢ 0x7f → begin c a ≡ reader ready (inserted c a)
unfolding begin
begin_plain c a lo hi n = ground arith

begin_two : (v : ℕ) (a : Line) → v < 32 → begin (0xc0 + v) a ≡ reader (due 0 v) a
unfolding begin
begin_two v a hi = ground arith

begin_three : (v : ℕ) (a : Line) → v < 16 → begin (0xe0 + v) a ≡ reader (due 1 v) a
unfolding begin
begin_three v a hi = ground arith

begin_four : (v : ℕ) (a : Line) → begin (0xf0 + v) a ≡ reader (due 2 v) a
unfolding begin
begin_four v a = ground arith

abbrev typed : ℕ → Line → Reader
typed c a = reader ready (inserted c a)

two : (c : ℕ) → c / 64 * 64 + (0x80 + c % 64 - 0x80) ≡ c
two c = omega arith

three : (c : ℕ) → (c / 4096 * 64 + (0x80 + c / 64 % 64 - 0x80)) * 64 + (0x80 + c % 64 - 0x80) ≡ c
three c = omega arith

four :
    (c : ℕ)
    → ((c / 262144 * 64 + (0x80 + c / 4096 % 64 - 0x80)) * 64 + (0x80 + c / 64 % 64 - 0x80)) * 64
        + (0x80 + c % 64 - 0x80)
      ≡ c
four c = omega arith

-- The four lengths of a character.
utf8_read :
    (c : ℕ) (a : Line) → IsPrintable c → read_all (reader ready a) (encode_utf8 c) ≡ typed c a
unfolding read_all encode_utf8 next
utf8_read c a (lo, n, scalar) = elim (Bool-cases (ltb c 0x80)) [
  | inl t ↦ rw t (begin_plain c a lo (ground arith) n)
  | inr t ↦ rw t (elim (Bool-cases (ltb c 0x800)) [
    | inl t ↦ rw (t, begin_two (c / 64) a (ground arith)) (ap (λ v. typed v a) (two c))
    | inr t ↦ rw t (elim (Bool-cases (ltb c 0x10000)) [
      | inl t ↦ rw (t, begin_three (c / 4096) a (ground arith)) (ap (λ v. typed v a) (three c))
      | inr t ↦ rw (t, begin_four (c / 262144) a) (ap (λ v. typed v a) (four c))
    ])
  ])
]

-- A ready reader, by its line.
ready_is : (s : Reader) → s.pending ≡ ready → s ≡ reader ready s.shown
ready_is s h = ap (λ p. reader p s.shown) h

becomes :
    (s : Reader) (bytes : Bytes) (a : Line)
    → s.pending ≡ ready
    → read_all (reader ready s.shown) bytes ≡ reader ready a
    → Becomes readline s bytes a
becomes s bytes a h e =
    let read : read_all s bytes ≡ reader ready a = ap (λ x. read_all x bytes) (ready_is s h) ∙ e in
    (ap (λ (x : Reader). x.pending) read, ap (λ (x : Reader). x.shown) read)

pub readline-ReadlineLaws : ReadlineLaws readline
unfolding read_all next begin control final
readline-ReadlineLaws = record {
  read-append = read_all-append;
  read_nil = λ s. refl;
  self_insert = λ s c h p. becomes s (encode_utf8 c) _ h (utf8_read c s.shown p);
  beginning_of_line = λ s h. becomes s (0x01 ∷ []) _ h refl;
  end_of_line = λ s h. becomes s (0x05 ∷ []) _ h refl;
  kill_line = λ s h. becomes s (0x0b ∷ []) _ h refl;
  unix_word_rubout = λ s l h w.
      becomes s (0x17 ∷ []) _ h
        (ap (λ b. reader ready (line b s.shown.behind)) (LastWord-rubbed_out s.shown.before l w));
  unix_line_discard = λ s h. becomes s (0x15 ∷ []) _ h refl;
  interrupt = λ s h. becomes s (0x03 ∷ []) _ h refl;
  clear_screen = λ s h. becomes s (0x0c ∷ []) _ h refl;
  accept_line = λ s h. becomes s (0x0d ∷ []) _ h refl;
  backward_delete_char = λ s h. becomes s (0x7f ∷ []) _ h refl;
  delete_char = λ s h. becomes s (0x1b ∷ b'[' ∷ b'3' ∷ b'~' ∷ []) _ h refl;
  backward_char = λ s b h. becomes s (cursor_key b b'D') _ h refl;
  forward_char = λ s b h. becomes s (cursor_key b b'C') _ h refl;
  home_key = λ s b h. becomes s (cursor_key b b'H') _ h refl;
  end_key = λ s b h. becomes s (cursor_key b b'F') _ h refl;
}
