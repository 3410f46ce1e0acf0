-- ===== src/Keys/Mouse.antt =====
-- Reading back the SGR report of a mouse event.
use tiny_ssh.Base.{
  ℕ, ◌+◌, ◌-◌, ◌*◌, ◌%◌, ◌≤◌, ◌<◌, ◌^◌, ◌≡◌, ◌⊎◌, ◌∙◌, ap, Bool, true, ◌&&◌, Option, none, some, [],
  ◌∷◌, ◌++◌, leb, ◌==◌, arith, if◌then◌else◌, Bytes, codes, All, inr,
}
use tiny_ssh.Decimal.{display, parse_digits}
use tiny_ssh.Decimal.RoundTrip.{IsDigit, display-IsDigit, parse_digits-display}
use tiny_ssh.Keys.{
  KeyModifiers, TermMode, left, MouseEventKind, down, up, drag, MouseEvent, mouse_base,
  mouse_suffix, with_modifiers, encode_mouse,
}

-- The number at the front, and what follows it.
read_number : ℕ → Bytes → ℕ × Bytes
read_number acc [] = (acc, [])
read_number acc (d ∷ ds) =
    if leb 48 d && leb d 57 then read_number (acc * 10 + (d - 48)) ds else (acc, d ∷ ds)

read_number-append :
    (ds : Bytes) (acc n c : ℕ) (rest : Bytes)
    → All IsDigit ds
    → parse_digits acc ds ≡ some n
    → (c < 48) ⊎ (57 < c)
    → read_number acc (ds ++ c ∷ rest) ≡ (n, c ∷ rest)
unfolding read_number parse_digits
read_number-append [] acc n c rest h p k = ground arith
read_number-append (d ∷ ds) acc n c rest h p k =
    ground (arith, read_number-append ds (acc * 10 + (d - 48)) n c rest h.1)

read_number-display :
    (n c : ℕ) (rest : Bytes)
    → n < 2 ^ 64
    → (c < 48) ⊎ (57 < c)
    → read_number 0 (display n ++ c ∷ rest) ≡ (n, c ∷ rest)
read_number-display n c rest h k =
    read_number-append (display n) 0 n c rest (display-IsDigit n) (parse_digits-display n h) k

-- Behind the expected byte.
expect : ℕ → Bytes → Option Bytes
expect c [] = none
expect c (d ∷ ds) = if d == c then some ds else none

-- What a program reads from `ESC [ < b ; x ; y` and a last byte.
pub record Report : Type 0 where
  pub button : ℕ
  pub x : ℕ
  pub y : ℕ
  pub final : ℕ

finish : ℕ → ℕ → ℕ × Bytes → Option Report
finish b x (y, c ∷ []) = some (record { button = b; x = x; y = y; final = c })
finish b x (y, _) = none

read_y : ℕ → ℕ × Bytes → Option Report
read_y b (x, r) = elim (expect b';' r) [ none ↦ none | some r' ↦ finish b x (read_number 0 r') ]

read_x : ℕ × Bytes → Option Report
read_x (b, r) = elim (expect b';' r) [ none ↦ none | some r' ↦ read_y b (read_number 0 r') ]

pub parse_report : Bytes → Option Report
parse_report (e ∷ l ∷ a ∷ r) =
    if e == 0x1b && l == b'[' && a == b'<' then read_x (read_number 0 r) else none
parse_report _ = none

parse_report-display :
    (b x y c : ℕ)
    → b < 2 ^ 64
    → x < 2 ^ 64
    → y < 2 ^ 64
    → (c < 48) ⊎ (57 < c)
    → parse_report (
        (0x1b ∷ codes "[<")
        ++ (display b ++ (b';' ∷ (display x ++ (b';' ∷ (display y ++ c ∷ []))))))
      ≡ some (record { button = b; x = x; y = y; final = c })
unfolding parse_report read_x read_y finish expect
parse_report-display b x y c hb hx hy hc =
    ap read_x (
      read_number-display b b';' (display x ++ (b';' ∷ (display y ++ c ∷ []))) hb
        (inr (omega arith)))
    ∙ ap (read_y b) (read_number-display x b';' (display y ++ c ∷ []) hx (inr (omega arith)))
    ∙ ap (finish b x) (read_number-display y c [] hy hc)

abbrev pub bit : Bool → ℕ → ℕ
bit b n = if b then n else 0

-- The button number with the bits of the modifiers: 4 for Shift, 8 for Alt and 16 for Ctrl.
abbrev pub button_code : ℕ → KeyModifiers → ℕ
button_code base mods = base + bit mods.shift 4 + bit mods.alt 8 + bit mods.control 16

pub with_modifiers-button_code :
    (k : MouseEventKind) (mods : KeyModifiers) (base : ℕ)
    → mouse_base k ≡ some base
    → (with_modifiers base mods ≡ button_code base mods) × (base ≤ 65)
unfolding mouse_base with_modifiers
with_modifiers-button_code (down left) mods base h = ground arith
with_modifiers-button_code (down _) mods base h = ground arith
with_modifiers-button_code (drag left) mods base h = ground arith
with_modifiers-button_code (drag _) mods base h = ground arith
with_modifiers-button_code _ mods base h = ground arith

button_code-lt : (base : ℕ) (mods : KeyModifiers) → base ≤ 65 → button_code base mods < 2 ^ 64
button_code-lt base mods h = ground arith

mouse_suffix-NonDigit : (k : MouseEventKind) → (mouse_suffix k < 48) ⊎ (57 < mouse_suffix k)
unfolding mouse_suffix
mouse_suffix-NonDigit (up _) = inr (omega arith)
mouse_suffix-NonDigit _ = inr (omega arith)

-- The report of an event that has a button number, off the last column and row of `u16`.
pub parse_report-button_code :
    (event : MouseEvent) (mode : TermMode) (base : ℕ)
    → mode.sgr_mouse ≡ true
    → mouse_base event.kind ≡ some base
    → event.column < 0xffff
    → event.row < 0xffff
    → parse_report (encode_mouse event mode)
      ≡ some (record {
        button = button_code base event.modifiers;
        x = event.column + 1;
        y = event.row + 1;
        final = mouse_suffix event.kind;
      })
unfolding encode_mouse
parse_report-button_code event mode base s k c r =
    let (w, small) = with_modifiers-button_code event.kind event.modifiers base k in
    let x : (event.column + 1) % 0x10000 ≡ event.column + 1 = omega arith in
    let y : (event.row + 1) % 0x10000 ≡ event.row + 1 = omega arith in
    rw (s, k, w, x, y)
      (parse_report-display (button_code base event.modifiers) (event.column + 1) (event.row + 1)
        (mouse_suffix event.kind) (button_code-lt base event.modifiers small) (omega arith)
        (omega arith) (mouse_suffix-NonDigit event.kind))
