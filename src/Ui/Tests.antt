-- ===== src/Ui/Tests.antt =====
-- Frames of a window of 80 columns and 24 rows, and the theorems at them.
use tiny_ssh.Base.{
  ◌+◌, ◌-◌, ◌≤◌, ◌<◌, ◌≡◌, ◌↔◌, refl, sym, subst, true, false, none, some, [], ◌∷◌, ◌++◌, map, In,
  inl, inr, arith, codes, length,
}
use Prim.Native.Nat.{min}
use tiny_ssh.Utf8.{Text}
use tiny_ssh.Session.{shell_open}
use tiny_ssh.Terminal.Tests.{tape, terminal}
use tiny_ssh.App.{App, new_shadow}
use tiny_ssh.App.Gate.{can_show_suggestion}
use tiny_ssh.App.Tests.{counter, app}
use tiny_ssh.Terminal
use tiny_ssh.Terminal.{trim_end, screen_text}
use tiny_ssh.Ui.{
  Rect, Ratatui, ghost, paragraph, render_grid, grid_lines, overlay, ghost_at, saturating_add,
  gather, push_line,
}
use tiny_ssh.Ui.Ghost.{RatatuiLaws, IsOverlay, render_grid-ghost_iff, render_grid-inside}
use tiny_ssh.Ui.Copy.{screen_text-grid_lines}

abbrev ui : Ratatui
ui = record {
  split =
      λ r. (record r { height = r.height - 1 }, record r { y = r.y + r.height - 1; height = 1 });
  right = λ r. min (r.x + r.width) 0xffff;
  bottom = λ r. min (r.y + r.height) 0xffff;
}

ui-RatatuiLaws : RatatuiLaws ui
ui-RatatuiLaws = record { right-le = λ area. omega arith }

abbrev grid : Rect
grid = record { x = 0; y = 0; width = 10; height = 23 }

abbrev ghost_rect : Rect
ghost_rect = record { x = 5; y = 0; width = 5; height = 1 }

-- The suggestion ` status` is cut at column 10.
drawn : render_grid counter ui grid app ≡ paragraph [] grid ∷ ghost (codes " stat") ghost_rect ∷ []
unfolding render_grid grid_lines gather push_line overlay ghost_at saturating_add
    can_show_suggestion Terminal.cursor Terminal.is_alt_screen
drawn = refl

render_grid-ghost_iff_example :
    In (ghost (codes " stat") ghost_rect) (render_grid counter ui grid app)
    ↔ IsOverlay counter ui grid app (codes " stat") ghost_rect
render_grid-ghost_iff_example =
    render_grid-ghost_iff counter ui ui-RatatuiLaws grid app (codes " stat") ghost_rect

is_drawn : In (ghost (codes " stat") ghost_rect) (render_grid counter ui grid app)
is_drawn = subst (In (ghost (codes " stat") ghost_rect)) (sym drawn) (inr (inl refl))

render_grid-inside_example :
    (ghost_rect.x + ghost_rect.width ≤ 10)
    × (ghost_rect.y < 23)
    × (ghost_rect.height ≡ 1)
    × (length (codes " stat") ≡ ghost_rect.width)
    × ((rest : Text) × (app.suggestion ≡ some (codes " stat" ++ rest)))
render_grid-inside_example =
    render_grid-inside counter ui ui-RatatuiLaws grid app (codes " stat") ghost_rect is_drawn

abbrev shown : App tape
shown = record {
  host = codes "h";
  user = codes "u";
  state = shell_open;
  terminal = terminal;
  closed = false;
  last_error = none;
  shadow = new_shadow;
  prompt_pos = none;
  cwd = none;
  mouse_capture = true;
  mouse_capture_changed = false;
  pending_clipboard = none;
}

screen_text-grid_lines_example :
    screen_text tape shown.terminal ≡ map trim_end (grid_lines tape ui shown)
screen_text-grid_lines_example =
    screen_text-grid_lines tape ui shown
      ((λ e. cc), ((λ e. cc), ((λ e. cc), ((λ e. cc), ((λ e. cc), tt)))))
