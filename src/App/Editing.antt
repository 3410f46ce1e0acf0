-- ===== src/App/Editing.antt =====
-- A line editor in the manner of readline, by keys: what the shadow buffer of
-- crates/tiny-ssh-cli/src/app.rs is to be.
use tiny_ssh.Base.{ℕ, Bool, ◌||◌, Option, none, some, [], ◌∷◌, ◌++◌, ◌==◌, if◌then◌else◌}
use tiny_ssh.Utf8.{Text}
use tiny_ssh.Keys.{
  KeyCode, char, enter, tab, back_tab, backspace, esc, home, end, insert, delete, page_up,
  page_down, f, other, to_ascii_lowercase,
}
use tiny_ssh.App.Word.{kill_word}

-- A line: the text before the cursor, and the text behind it.
pub record Line : Type 0 where
  pub before : Text
  pub behind : Text

abbrev pub line : Text → Text → Line
line l r = record { before = l; behind = r }

-- All but the last character, and the last.
unfoldable pub split_last : Text → Option (Text × ℕ)
split_last [] = none
split_last (c ∷ cs) = elim (split_last cs) [ none ↦ some ([], c) | some (i, d) ↦ some (c ∷ i, d) ]

unfoldable pub ctrl_edited : ℕ → Line → Line
ctrl_edited c a =
    if c == b'a'
    then line [] (a.before ++ a.behind)
    else if c == b'e'
    then line (a.before ++ a.behind) []
    else if c == b'u'
    then line [] []
    else if c == b'k'
    then line a.before []
    else if c == b'w'
    then line (kill_word a.before) a.behind
    else if c == b'c' || c == b'd'
    then line [] []
    else a

unfoldable pub backspaced : Line → Line
backspaced a = elim (split_last a.before) [ none ↦ a | some (i, c) ↦ line i a.behind ]

unfoldable pub moved_left : Line → Line
moved_left a = elim (split_last a.before) [ none ↦ a | some (i, c) ↦ line i (c ∷ a.behind) ]

unfoldable pub step_over : Text → Line → Line
step_over [] a = a
step_over (c ∷ r) a = line (a.before ++ c ∷ []) r

unfoldable pub moved_right : Line → Line
moved_right a = step_over a.behind a

-- A line editor in the manner of readline.
unfoldable pub edited : Bool → KeyCode → Line → Line
edited ctrl (char c) a =
    if ctrl then ctrl_edited (to_ascii_lowercase c) a else line (a.before ++ c ∷ []) a.behind
edited ctrl backspace a = backspaced a
edited ctrl enter a = line [] []
edited ctrl KeyCode.up a = line [] []
edited ctrl KeyCode.down a = line [] []
edited ctrl page_up a = line [] []
edited ctrl page_down a = line [] []
edited ctrl KeyCode.left a = moved_left a
edited ctrl KeyCode.right a = moved_right a
edited ctrl home a = line [] (a.before ++ a.behind)
edited ctrl end a = line (a.before ++ a.behind) []
edited ctrl tab a = a
edited ctrl back_tab a = a
edited ctrl esc a = a
edited ctrl insert a = a
edited ctrl delete a = a
edited ctrl (f n) a = a
edited ctrl other a = a
