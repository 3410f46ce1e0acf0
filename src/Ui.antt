-- ===== src/Ui.antt =====
-- crates/tiny-ssh-cli/src/ui.rs: what a frame shows. `ratatui` splits the window; a frame is the
-- list of what is drawn, in order, without colours.
pub mod Ghost
pub mod Copy
pub mod Tests
use Prim.Native.Nat.{min}
use tiny_ssh.Base.{
  ℕ, ◌+◌, ◌-◌, ◌%◌, Bool, true, false, not, ◌&&◌, Option, none, some, List, [], ◌∷◌, ◌++◌, ltb,
  ◌==◌, if◌then◌else◌, length, take, ℤ, int_eq, codes,
}
use tiny_ssh.Utf8.{Text}
use tiny_ssh.Session.{SessionState, connecting, authenticated, shell_open, closed, failed}
use tiny_ssh.Terminal
use tiny_ssh.Terminal.{Cell, Vt, Collect, put_char, collect_start, i32_min}
use tiny_ssh.App.{App}
use tiny_ssh.App.Gate.{can_show_suggestion}

-- `ratatui::layout::Rect`.
pub record Rect : Type 0 where
  pub x : ℕ
  pub y : ℕ
  pub width : ℕ
  pub height : ℕ

-- `Layout::split` with the grid on top and one row for the status, and the edges of an area.
pub record Ratatui : Type 0 where
  pub split : Rect → Rect × Rect
  pub right : Rect → ℕ
  pub bottom : Rect → ℕ

-- What a frame shows: lines of text, styled text, and the visible cursor.
pub data Drawn : Type 0 where
  paragraph : List Text → Rect → Drawn
  ghost : Text → Rect → Drawn
  status : List Text → Rect → Drawn
  set_cursor : ℕ → ℕ → Drawn

-- `u16::saturating_add`.
unfoldable pub saturating_add : ℕ → ℕ → ℕ
saturating_add a b = min (a + b) 0xffff

-- A finished line of the grid, if there is one.
unfoldable pub push_line : Collect → List Text
push_line s =
    if not (int_eq s.current_line i32_min) then s.lines ++ s.current_text ∷ [] else s.lines

-- The `if` on a new line; the text is taken only with the line.
unfoldable pub next_line : Collect → ℤ → Collect
next_line s line_idx =
    if not (int_eq line_idx s.current_line)
    then record {
      lines = push_line s;
      current_line = line_idx;
      current_text = if not (int_eq s.current_line i32_min) then [] else s.current_text;
    }
    else s

-- The loop of `render_grid`.
unfoldable pub gather : Collect → List Cell → List Text
gather s [] = push_line s
gather s (cell ∷ cells) = gather (put_char (next_line s cell.line) cell) cells

-- The ghost text at `x` and `y`, cut at the right edge.
unfoldable pub ghost_at : ℕ → ℕ → ℕ → Text → List Drawn
ghost_at right x y suggestion =
    let truncated = take (right - x) suggestion in
    let width = min (length truncated) (right - x) % 0x10000 in
    if ltb 0 width
    then ghost truncated (record { x = x; y = y; width = width; height = 1 }) ∷ []
    else []

unfoldable pub state_label : SessionState → Text
state_label connecting = codes "connecting"
state_label authenticated = codes "authenticated"
state_label shell_open = codes "shell open"
state_label closed = codes "closed"
state_label (failed msg) = codes "failed: " ++ msg

unfoldable pub cwd_label : Option Text → Text
cwd_label none = []
cwd_label (some p) = codes " cwd:" ++ p

unfoldable pub mouse_label : Bool → Text
mouse_label capture = if capture then codes "mouse" else codes "MOUSE-OFF"

unfoldable pub error_spans : Option Text → List Text
error_spans none = []
error_spans (some e) = codes " · " ∷ (codes "err: " ++ e) ∷ []

module _ (vt : Vt) (ui : Ratatui) where
  open ui use {split, right, bottom}

  unfoldable pub grid_lines : App vt → List Text
  grid_lines app = gather collect_start (vt.display_iter app.terminal.inner)

  -- The suggestion over the grid.
  unfoldable pub overlay : Rect → App vt → Option Text → List Drawn
  overlay area app none = []
  overlay area app (some suggestion) =
      let (cur_col, cur_row) = Terminal.cursor vt app.terminal in
      let x = saturating_add area.x cur_col in
      let y = saturating_add area.y cur_row in
      if ltb x (right area) && ltb y (bottom area) then ghost_at (right area) x y suggestion else []

  unfoldable pub render_grid : Rect → App vt → List Drawn
  render_grid area app =
      paragraph (grid_lines app) area
      ∷ (if can_show_suggestion vt app then overlay area app app.suggestion else [])

  unfoldable pub status_spans : App vt → List Text
  status_spans app =
      (b'[' ∷ (state_label app.state ++ b']' ∷ []))
      ∷ cwd_label app.cwd
      ∷ (codes " · "
          ++ (mouse_label app.mouse_capture
              ++ codes " · → accept · Tab/Ctrl-* remote · Ctrl-Q quit"))
      ∷ error_spans app.last_error

  unfoldable pub render_status : Rect → App vt → List Drawn
  render_status area app = status (status_spans app) area ∷ []

  -- The visible cursor, if it is inside the grid.
  unfoldable pub place_cursor : Rect → App vt → List Drawn
  place_cursor area app =
      let (cur_col, cur_row) = Terminal.cursor vt app.terminal in
      let cx = saturating_add area.x cur_col in
      let cy = saturating_add area.y cur_row in
      if ltb cx (right area) && ltb cy (bottom area) then set_cursor cx cy ∷ [] else []

  unfoldable pub render : Rect → App vt → List Drawn
  render area app =
      let (grid_area, status_area) = split area in
      render_grid grid_area app ++ (render_status status_area app ++ place_cursor grid_area app)
