-- ===== src/Keys.antt =====
-- crates/tiny-ssh-cli/src/keys.rs: crossterm key and mouse events as the bytes of an xterm. Of
-- crossterm's and alacritty's types the model has what the source names; all other key codes are
-- `other`.
pub mod Char
pub mod Decode
pub mod Mouse
pub mod Gesture
pub mod Tests
use Prim.Native.Nat.{bit_or}
use tiny_ssh.Base.{
  ℕ, ◌+◌, ◌-◌, ◌%◌, Bool, true, false, not, ◌&&◌, ◌||◌, Option, none, some, [], ◌∷◌, ◌++◌, leb,
  ◌==◌, if◌then◌else◌, Bytes, codes,
}
use tiny_ssh.Utf8.{encode_utf8}
use tiny_ssh.Decimal.{display}

pub data KeyCode : Type 0 where
  char : ℕ → KeyCode
  enter tab back_tab backspace esc left right up down home end insert delete page_up page_down :
      KeyCode
  f : ℕ → KeyCode
  other : KeyCode

-- `KeyModifiers`; `extra` stands for the flags that the source never names.
pub record KeyModifiers : Type 0 where
  pub shift : Bool
  pub control : Bool
  pub alt : Bool
  pub extra : Bool

pub data KeyEventKind : Type 0 where
  press repeat release : KeyEventKind

pub record KeyEvent : Type 0 where
  pub code : KeyCode
  pub modifiers : KeyModifiers
  pub kind : KeyEventKind

-- The flags of `TermMode` that the source reads.
pub record TermMode : Type 0 where
  pub app_cursor : Bool
  pub sgr_mouse : Bool
  pub alt_screen : Bool
  pub bracketed_paste : Bool

pub data MouseButton : Type 0 where
  left right middle : MouseButton

pub data MouseEventKind : Type 0 where
  down up drag : MouseButton → MouseEventKind
  moved scroll_up scroll_down scroll_left scroll_right : MouseEventKind

pub record MouseEvent : Type 0 where
  pub kind : MouseEventKind
  pub column : ℕ
  pub row : ℕ
  pub modifiers : KeyModifiers

-- `char::to_ascii_lowercase`.
unfoldable pub to_ascii_lowercase : ℕ → ℕ
to_ascii_lowercase c = if leb b'A' c && leb c b'Z' then c + 32 else c

unfoldable pub ctrl_byte : ℕ → Option ℕ
ctrl_byte c =
    let lower = to_ascii_lowercase c in
    if leb b'a' lower && leb lower b'z'
    then some (lower - b'a' + 1)
    else if lower == b'@' || lower == b'2' || lower == b' '
    then some 0x00
    else if lower == b'[' || lower == b'3'
    then some 0x1b
    else if lower == b'\\' || lower == b'4'
    then some 0x1c
    else if lower == b']' || lower == b'5'
    then some 0x1d
    else if lower == b'^' || lower == b'6'
    then some 0x1e
    else if lower == b'_' || lower == b'7'
    then some 0x1f
    else if lower == b'?' || lower == b'8'
    then some 0x7f
    else none

-- The end of `encode_char`: the character itself, behind ESC under Alt.
abbrev plain_char : ℕ → KeyModifiers → Bytes
plain_char c mods = if mods.alt then 0x1b ∷ encode_utf8 c else encode_utf8 c

unfoldable pub encode_char : ℕ → KeyModifiers → Bytes
encode_char c mods =
    if mods.control
    then elim (ctrl_byte c) [
      | some b ↦ if mods.alt then 0x1b ∷ b ∷ [] else b ∷ []
      | none ↦ plain_char c mods
    ]
    else plain_char c mods

unfoldable pub arrow : ℕ → Bool → Bytes
arrow letter app_cursor =
    if app_cursor then 0x1b ∷ b'O' ∷ letter ∷ [] else 0x1b ∷ b'[' ∷ letter ∷ []

abbrev escape : Bytes → Bytes
escape s = 0x1b ∷ s

unfoldable pub f_key : ℕ → Bytes
f_key n =
    if n == 1
    then escape (codes "OP")
    else if n == 2
    then escape (codes "OQ")
    else if n == 3
    then escape (codes "OR")
    else if n == 4
    then escape (codes "OS")
    else if n == 5
    then escape (codes "[15~")
    else if n == 6
    then escape (codes "[17~")
    else if n == 7
    then escape (codes "[18~")
    else if n == 8
    then escape (codes "[19~")
    else if n == 9
    then escape (codes "[20~")
    else if n == 10
    then escape (codes "[21~")
    else if n == 11
    then escape (codes "[23~")
    else if n == 12
    then escape (codes "[24~")
    else []

-- The `match key.code` of `encode`.
unfoldable pub encode_code : KeyCode → KeyModifiers → Bool → Bytes
encode_code (char c) mods app_cursor = encode_char c mods
encode_code enter mods app_cursor = b'\r' ∷ []
encode_code tab mods app_cursor = b'\t' ∷ []
encode_code back_tab mods app_cursor = escape (codes "[Z")
encode_code backspace mods app_cursor = 0x7f ∷ []
encode_code esc mods app_cursor = 0x1b ∷ []
encode_code KeyCode.left mods app_cursor = arrow b'D' app_cursor
encode_code KeyCode.right mods app_cursor = arrow b'C' app_cursor
encode_code KeyCode.up mods app_cursor = arrow b'A' app_cursor
encode_code KeyCode.down mods app_cursor = arrow b'B' app_cursor
encode_code home mods app_cursor = arrow b'H' app_cursor
encode_code end mods app_cursor = arrow b'F' app_cursor
encode_code insert mods app_cursor = escape (codes "[2~")
encode_code delete mods app_cursor = escape (codes "[3~")
encode_code page_up mods app_cursor = escape (codes "[5~")
encode_code page_down mods app_cursor = escape (codes "[6~")
encode_code (f n) mods app_cursor = f_key n
encode_code other mods app_cursor = []

unfoldable pub encode : KeyEvent → TermMode → Bytes
encode key mode = encode_code key.code key.modifiers mode.app_cursor

-- The button number before the modifiers; `none` where `encode_mouse` returns early.
unfoldable pub mouse_base : MouseEventKind → Option ℕ
mouse_base (MouseEventKind.down MouseButton.left) = some 0
mouse_base (MouseEventKind.down MouseButton.middle) = some 1
mouse_base (MouseEventKind.down MouseButton.right) = some 2
mouse_base (MouseEventKind.up _) = some 3
mouse_base (drag MouseButton.left) = some 32
mouse_base (drag MouseButton.middle) = some 33
mouse_base (drag MouseButton.right) = some 34
mouse_base scroll_up = some 64
mouse_base scroll_down = some 65
mouse_base scroll_left = none
mouse_base scroll_right = none
mouse_base moved = none

-- The `match` on the kind behind `suffix`.
unfoldable pub mouse_suffix : MouseEventKind → ℕ
mouse_suffix (MouseEventKind.up _) = b'm'
mouse_suffix _ = b'M'

-- The three `|=` on `btn`.
unfoldable pub with_modifiers : ℕ → KeyModifiers → ℕ
with_modifiers base mods =
    let btn = if mods.shift then bit_or base 4 else base in
    let btn' = if mods.alt then bit_or btn 8 else btn in
    if mods.control then bit_or btn' 16 else btn'

-- `column + 1` and `row + 1` are on `u16`, and wrap in a release build.
unfoldable pub encode_mouse : MouseEvent → TermMode → Bytes
encode_mouse event mode = if not mode.sgr_mouse then [] else elim (mouse_base event.kind) [
  | none ↦ []
  | some base ↦
      escape (codes "[<")
      ++ (display (with_modifiers base event.modifiers)
          ++ (b';'
              ∷ (display ((event.column + 1) % 0x10000)
                  ++ (b';'
                      ∷ (display ((event.row + 1) % 0x10000) ++ mouse_suffix event.kind ∷ [])))))
]
