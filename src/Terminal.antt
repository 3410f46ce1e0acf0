-- ===== src/Terminal.antt =====
-- `Terminal` of crates/tiny-ssh-cli/src/term.rs: alacritty's terminal, which is the parameter `Vt`,
-- beside the OSC scanner.
pub mod Screen
pub mod Feed
pub mod Tests
use tiny_ssh.Base.{
  ℕ, ◌-◌, ◌%◌, ◌^◌, ◌≡◌, ◌&&◌, Bool, not, List, [], ◌∷◌, ◌++◌, ltb, ◌==◌, if◌then◌else◌, Bytes, ℤ,
  negsuc, pos_part, int_eq, ◌||◌,
}
use Prim.Native.Nat.{max}
use tiny_ssh.Utf8.{Text}
use tiny_ssh.Keys.{TermMode}
use tiny_ssh.Osc.{OscEvent, OscScanner, default, scan}

-- A cell of the grid as `display_iter` gives it: its line, whether it is the spacer of a wide
-- character, and its character.
pub record Cell : Type 0 where
  pub line : ℤ
  pub is_spacer : Bool
  pub c : ℕ

-- `alacritty_terminal`: the terminal, its parser, and what the source calls of them.
pub record Vt : Type 1 where
  pub Term : Type 0
  pub Processor : Type 0
  pub new_term : ℕ → ℕ → Term
  pub new_processor : Processor
  pub advance : Processor → Term → Bytes → Processor × Term
  pub resize_term : Term → ℕ → ℕ → Term
  pub cursor_point : Term → ℕ × ℤ
  pub term_mode : Term → TermMode
  pub scroll : Term → ℤ → Term
  pub display_iter : Term → List Cell

-- The parser keeps its state between two parts of a stream.
pub record VtLaws (vt : Vt) : Type 0 where
  pub advance-append :
      (p : vt.Processor) (t : vt.Term) (xs ys : Bytes)
      → vt.advance p t (xs ++ ys) ≡ vt.advance (vt.advance p t xs).0 (vt.advance p t xs).1 ys
  pub advance_nil : (p : vt.Processor) (t : vt.Term) → vt.advance p t [] ≡ (p, t)

pub record Terminal (vt : Vt) : Type 0 where
  pub inner : vt.Term
  pub parser : vt.Processor
  pub osc_scanner : OscScanner
  pub pending_osc : List OscEvent

-- `char::is_whitespace`: the Unicode property White_Space.
unfoldable pub is_whitespace : ℕ → Bool
is_whitespace c =
    (ltb 8 c && ltb c 14)
    || c == 0x20
    || c == 0x85
    || c == 0xa0
    || c == 0x1680
    || (ltb 0x1fff c && ltb c 0x200b)
    || c == 0x2028
    || c == 0x2029
    || c == 0x202f
    || c == 0x205f
    || c == 0x3000

-- A character with a property stays only before others that stay.
unfoldable pub keep_before : (ℕ → Bool) → ℕ → Text → Text
keep_before p c [] = if p c then [] else c ∷ []
keep_before p c (d ∷ ds) = c ∷ d ∷ ds

-- A text without the characters at its end that have a property.
unfoldable pub drop_last_while : (ℕ → Bool) → Text → Text
drop_last_while p [] = []
drop_last_while p (c ∷ cs) = keep_before p c (drop_last_while p cs)

-- `str::trim_end`.
unfoldable pub trim_end : Text → Text
trim_end = drop_last_while is_whitespace

-- The variables of the loop of `screen_text`.
pub record Collect : Type 0 where
  pub lines : List Text
  pub current_line : ℤ
  pub current_text : Text

abbrev pub i32_min : ℤ
i32_min = negsuc (2 ^ 31 - 1)

-- The line read so far, at the end of a line.
unfoldable pub flush : Collect → List Text
flush s =
    if not (int_eq s.current_line i32_min) then s.lines ++ trim_end s.current_text ∷ [] else s.lines

-- The `if` on a new line.
unfoldable pub start_line : Collect → ℤ → Collect
start_line s line_idx =
    if not (int_eq line_idx s.current_line)
    then record { lines = flush s; current_line = line_idx; current_text = [] }
    else s

unfoldable pub put_char : Collect → Cell → Collect
put_char s cell =
    if not cell.is_spacer then record s { current_text = s.current_text ++ cell.c ∷ [] } else s

unfoldable pub collect : Collect → List Cell → List Text
collect s [] = flush s
collect s (cell ∷ cells) = collect (put_char (start_line s cell.line) cell) cells

abbrev pub collect_start : Collect
collect_start = record { lines = []; current_line = i32_min; current_text = [] }

module _ (vt : Vt) where
  open vt use {
    new_term, new_processor, advance, resize_term, cursor_point, term_mode, scroll, display_iter,
  }

  unfoldable pub new : ℕ → ℕ → Terminal vt
  new cols rows = record {
    inner = new_term (max cols 1) (max rows 1);
    parser = new_processor;
    osc_scanner = default;
    pending_osc = [];
  }

  unfoldable pub feed : Terminal vt → Bytes → Terminal vt
  feed t bytes =
      let (scanner, pending) = scan t.osc_scanner bytes t.pending_osc in
      let (p, inner) = advance t.parser t.inner bytes in
      record { inner = inner; parser = p; osc_scanner = scanner; pending_osc = pending }

  unfoldable pub resize : Terminal vt → ℕ → ℕ → Terminal vt
  resize t cols rows = record t { inner = resize_term t.inner (max cols 1) (max rows 1) }

  -- `as u16` on both coordinates; a negative line is 0.
  unfoldable pub cursor : Terminal vt → ℕ × ℕ
  cursor t =
      let (column, line) = cursor_point t.inner in (column % 0x10000, pos_part line % 0x10000)

  unfoldable pub mode : Terminal vt → TermMode
  mode t = term_mode t.inner

  unfoldable pub is_alt_screen : Terminal vt → Bool
  is_alt_screen t = (term_mode t.inner).alt_screen

  unfoldable pub take_osc_events : Terminal vt → List OscEvent × Terminal vt
  take_osc_events t = (t.pending_osc, record t { pending_osc = [] })

  unfoldable pub scroll_display : Terminal vt → ℤ → Terminal vt
  scroll_display t lines = record t { inner = scroll t.inner lines }

  unfoldable pub screen_text : Terminal vt → List Text
  screen_text t = collect collect_start (display_iter t.inner)
