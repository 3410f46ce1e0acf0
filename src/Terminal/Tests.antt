-- ===== src/Terminal/Tests.antt =====
-- A terminal that keeps its bytes and shows two fixed rows.
use tiny_ssh.Base.{
  ◌≡◌, refl, true, false, List, [], ◌∷◌, ◌++◌, append_assoc, append-nil, Bytes, pos, map, arith,
}
use tiny_ssh.Osc.{default}
use tiny_ssh.Terminal.{Vt, VtLaws, Terminal, screen_text}
use tiny_ssh.Terminal.Screen.{Row, display, row_text, screen_text-display}

abbrev pub rows : List Row
rows =
    record {
      line = pos 0;
      first = (false, b'$');
      rest = (false, b' ') ∷ (false, 0x4f60) ∷ (true, b' ') ∷ [];
    }
    ∷ record { line = pos 1; first = (false, b' '); rest = [] }
    ∷ []

abbrev pub tape : Vt
tape = record {
  Term = Bytes;
  Processor = Unit {0};
  new_term = λ cols rows. [];
  new_processor = tt;
  advance = λ p t bytes. (tt, t ++ bytes);
  resize_term = λ t cols rows. t;
  cursor_point = λ t. (0, pos 0);
  term_mode = λ t. record {
    app_cursor = false;
    sgr_mouse = false;
    alt_screen = false;
    bracketed_paste = false;
  };
  scroll = λ t lines. t;
  display_iter = λ t. display rows;
}

pub tape-VtLaws : VtLaws tape
tape-VtLaws = record {
  advance-append = λ p t xs ys. rw append_assoc;
  advance_nil = λ p t. rw append-nil refl;
}

abbrev pub terminal : Terminal tape
terminal = record { inner = []; parser = tt; osc_scanner = default; pending_osc = [] }

screen_text-display_example : screen_text tape terminal ≡ map row_text rows
screen_text-display_example =
    screen_text-display tape terminal rows refl
      ((λ e. cc), (λ e. cc), ((λ e. ground arith), (λ e. cc), tt))
