-- ===== src/Keys/Decode.antt =====
-- Which key a sequence stands for, by a table of xterm's sequences.
use tiny_ssh.Base.{
  ℕ, ◌≤◌, ◌<◌, ◌≡◌, ◌≢◌, ◌↔◌, ◌⊎◌, refl, Bool, true, false, Option, none, some, List, [], ◌∷◌,
  arith, equal, if◌then◌else◌, Bytes, codes,
}
use tiny_ssh.Utf8.{encode_utf8}
use tiny_ssh.Keys.{
  KeyCode, char, enter, tab, back_tab, backspace, esc, left, right, up, down, home, end, insert,
  delete, page_up, page_down, f, other, KeyModifiers, KeyEvent, TermMode, encode_char, arrow, f_key,
  encode_code, encode,
}

abbrev csi : Bytes → Bytes
csi s = 0x1b ∷ b'[' ∷ s

abbrev ss3 : Bytes → Bytes
ss3 s = 0x1b ∷ b'O' ∷ s

abbrev key_table : List (Bytes × KeyCode)
key_table =
    (0x0d ∷ [], enter)
    ∷ (0x09 ∷ [], tab)
    ∷ (0x7f ∷ [], backspace)
    ∷ (0x1b ∷ [], esc)
    ∷ (csi (codes "Z"), back_tab)
    ∷ (csi (codes "A"), up)
    ∷ (csi (codes "B"), down)
    ∷ (csi (codes "C"), right)
    ∷ (csi (codes "D"), left)
    ∷ (csi (codes "H"), home)
    ∷ (csi (codes "F"), end)
    ∷ (ss3 (codes "A"), up)
    ∷ (ss3 (codes "B"), down)
    ∷ (ss3 (codes "C"), right)
    ∷ (ss3 (codes "D"), left)
    ∷ (ss3 (codes "H"), home)
    ∷ (ss3 (codes "F"), end)
    ∷ (csi (codes "2~"), insert)
    ∷ (csi (codes "3~"), delete)
    ∷ (csi (codes "5~"), page_up)
    ∷ (csi (codes "6~"), page_down)
    ∷ (ss3 (codes "P"), f 1)
    ∷ (ss3 (codes "Q"), f 2)
    ∷ (ss3 (codes "R"), f 3)
    ∷ (ss3 (codes "S"), f 4)
    ∷ (csi (codes "15~"), f 5)
    ∷ (csi (codes "17~"), f 6)
    ∷ (csi (codes "18~"), f 7)
    ∷ (csi (codes "19~"), f 8)
    ∷ (csi (codes "20~"), f 9)
    ∷ (csi (codes "21~"), f 10)
    ∷ (csi (codes "23~"), f 11)
    ∷ (csi (codes "24~"), f 12)
    ∷ []

find_key : Bytes → List (Bytes × KeyCode) → Option KeyCode
find_key s [] = none
find_key s ((t, k) ∷ rest) = if equal s t then some k else find_key s rest

unfoldable pub decode_key : Bytes → Option KeyCode
unfolding find_key equal
decode_key s = find_key s key_table

-- The keys with a sequence of their own.
abbrev pub IsNamed : KeyCode → Type 0
IsNamed (char _) = ⊥
IsNamed other = ⊥
IsNamed (f n) = (1 ≤ n) × (n ≤ 12)
IsNamed _ = Unit

decode_key-f_key : (n : ℕ) → (1 ≤ n) × (n ≤ 12) → decode_key (f_key n) ≡ some (f n)
unfolding decode_key f_key
decode_key-f_key n h = ground arith

decode_key-encode_code :
    (k : KeyCode) (mods : KeyModifiers) (app : Bool)
    → IsNamed k
    → decode_key (encode_code k mods app) ≡ some k
unfolding encode_code
decode_key-encode_code (char c) mods app h = elim h [ ]
decode_key-encode_code other mods app h = elim h [ ]
decode_key-encode_code (f n) mods app h = decode_key-f_key n h
decode_key-encode_code left mods true h = unfold arrow decode_key in refl
decode_key-encode_code left mods false h = unfold arrow decode_key in refl
decode_key-encode_code _ mods true h = unfold arrow decode_key in refl
decode_key-encode_code _ mods false h = unfold arrow decode_key in refl

-- The sequence of a named key determines the key, under any modifiers and in either cursor mode.
pub decode_key-encode :
    (key : KeyEvent) (mode : TermMode)
    → IsNamed key.code
    → decode_key (encode key mode) ≡ some key.code
unfolding encode
decode_key-encode key mode h = decode_key-encode_code key.code key.modifiers mode.app_cursor h

-- The keys that send nothing.
abbrev pub IsSilent : KeyCode → Type 0
IsSilent other = Unit
IsSilent (f n) = (n ≡ 0) ⊎ (12 < n)
IsSilent _ = ⊥

encode_char-ne_nil : (c : ℕ) (mods : KeyModifiers) → encode_char c mods ≢ []
unfolding encode_char encode_utf8
encode_char-ne_nil c mods = ground arith

encode_code-IsSilent :
    (k : KeyCode) (mods : KeyModifiers) (app : Bool) → (encode_code k mods app ≡ []) ↔ IsSilent k
unfolding encode_code arrow f_key
encode_code-IsSilent (char c) mods app =
    (λ e. absurd (encode_char-ne_nil c mods e), λ h. elim h [ ])
encode_code-IsSilent other mods app = (λ e. tt, λ h. refl)
encode_code-IsSilent (f n) mods app = (λ e. ground arith, λ h. ground arith)
encode_code-IsSilent left mods app = (λ e. ground arith, λ h. elim h [ ])
encode_code-IsSilent _ mods app = (λ e. ground arith, λ h. elim h [ ])

-- A key sends nothing exactly when it is F0, a function key above F12 or a key that is not
-- translated.
pub encode_nil_iff : (key : KeyEvent) (mode : TermMode) → (encode key mode ≡ []) ↔ IsSilent key.code
unfolding encode
encode_nil_iff key mode = encode_code-IsSilent key.code key.modifiers mode.app_cursor
