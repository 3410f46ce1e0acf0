-- ===== src/Keys/Char.antt =====
-- The bytes of character keys.
use tiny_ssh.Base.{
  ℕ, ◌%◌, ◌≤◌, ◌<◌, ◌≡◌, ◌⊎◌, Bool, true, false, some, [], ◌∷◌, ◌++◌, arith, if◌then◌else◌, Bytes,
}
use tiny_ssh.Utf8.{encode_utf8}
use tiny_ssh.Keys.{KeyModifiers, to_ascii_lowercase, ctrl_byte, encode_char}

abbrev pub IsLetter : ℕ → Type 0
IsLetter c = ((b'a' ≤ c) × (c ≤ b'z')) ⊎ ((b'A' ≤ c) × (c ≤ b'Z'))

-- The ESC prefix of Alt.
abbrev pub meta : Bool → Bytes
meta b = if b then 0x1b ∷ [] else []

-- Ctrl and a letter of either case send the letter's low five bits; Alt puts ESC in front.
pub encode_char-letter :
    (c : ℕ) (mods : KeyModifiers)
    → IsLetter c
    → mods.control ≡ true
    → encode_char c mods ≡ meta mods.alt ++ c % 32 ∷ []
unfolding encode_char ctrl_byte to_ascii_lowercase
encode_char-letter c mods h k = ground arith

-- Without Ctrl a character sends its UTF-8 bytes, whatever Shift says; Alt puts ESC in front.
pub encode_char-utf8 :
    (c : ℕ) (mods : KeyModifiers)
    → mods.control ≡ false
    → encode_char c mods ≡ meta mods.alt ++ encode_utf8 c
unfolding encode_char
encode_char-utf8 c mods k = ground arith

-- What Ctrl makes of a character is a control character below 32 or DEL.
pub ctrl_byte-IsControl : (c : ℕ) {b : ℕ} → ctrl_byte c ≡ some b → (b < 0x20) ⊎ (b ≡ 0x7f)
unfolding ctrl_byte to_ascii_lowercase
ctrl_byte-IsControl c h = ground arith
