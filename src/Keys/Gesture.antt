-- ===== src/Keys/Gesture.antt =====
-- What a program sees of the mouse event that crates/tiny-ssh-cli/src/keys.rs reports.
use tiny_ssh.Base.{
  ℕ, ◌%◌, ◌/◌, ◌<◌, ◌≡◌, Bool, Option, none, some, ◌>>=◌, ◌==◌, if◌then◌else◌, Bytes,
}
use tiny_ssh.Keys.{
  MouseButton, left, right, middle, MouseEventKind, down, up, drag, scroll_up, scroll_down,
  mouse_base, mouse_suffix,
}
use tiny_ssh.Keys.Mouse.{Report, parse_report}

-- What xterm documents that a program reads from a report: a button goes down, goes up or is
-- dragged, or the wheel turns.
pub data Gesture : Type 0 where
  pressed dragged : MouseButton → Gesture
  released wheel_up wheel_down : Gesture

pub record Seen : Type 0 where
  pub gesture : Gesture
  pub shift : Bool
  pub alt : Bool
  pub control : Bool
  pub x : ℕ
  pub y : ℕ

button_of : ℕ → Option MouseButton
button_of n =
    if n == 0
    then some left
    else if n == 1
    then some middle
    else if n == 2
    then some right
    else none

-- Bit 6 is the wheel, bit 5 a motion, and the two lowest bits are the button; a last `m` is a
-- release.
gesture_of : ℕ → ℕ → Option Gesture
gesture_of n final =
    if final == b'm'
    then some released
    else if n / 64 % 2 == 1
    then (if n % 4 == 0 then some wheel_up else if n % 4 == 1 then some wheel_down else none)
    else button_of (n % 4) >>= λ b. some (if n / 32 % 2 == 1 then dragged b else pressed b)

-- Bits 2, 3 and 4 are Shift, Alt and Ctrl.
seen_of : Report → Option Seen
seen_of r = gesture_of r.button r.final >>= λ g. some (record {
  gesture = g;
  shift = r.button / 4 % 2 == 1;
  alt = r.button / 8 % 2 == 1;
  control = r.button / 16 % 2 == 1;
  x = r.x;
  y = r.y;
})

pub read_mouse : Bytes → Option Seen
unfolding seen_of
read_mouse bytes = parse_report bytes >>= seen_of

-- What a program is to see of an event; a motion without a button and a wheel that turns sideways
-- are not reported.
unfoldable pub gesture : MouseEventKind → Option Gesture
gesture (down b) = some (pressed b)
gesture (up b) = some released
gesture (drag b) = some (dragged b)
gesture scroll_up = some wheel_up
gesture scroll_down = some wheel_down
gesture _ = none

-- The button number of an event that is reported, and its last byte.
abbrev Numbered : MouseEventKind → Gesture → Type 0
Numbered k g =
    (base : ℕ) × (mouse_base k ≡ some base)
    × (base % 32 < 4)
    × (gesture_of base (mouse_suffix k) ≡ some g)
