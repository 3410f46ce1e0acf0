-- ===== src/Utf8.antt =====
-- Rust's `char`, `str` and `String` as far as crates/tiny-ssh-cli uses them: a text is the list of
-- its scalar values, its bytes are their UTF-8 encoding, and an operation of `str` at a byte index
-- that is no character boundary is a panic (`none`).
pub mod Boundary
pub mod Ascii
use tiny_ssh.Base.{
  ℕ, zero, suc, ◌+◌, ◌-◌, ◌/◌, ◌%◌, ◌≤◌, ◌<◌, Bool, true, false, ◌&&◌, Option, none, some, ◌⊎◌,
  List, [], ◌∷◌, ◌++◌, ltb, leb, ◌==◌, if◌then◌else◌, Bytes,
}

-- The scalar values of a text, in order.
abbrev pub Text : Type 0
Text = List ℕ

-- `char::len_utf8`.
unfoldable pub len_utf8 : ℕ → ℕ
len_utf8 c = if ltb c 0x80 then 1 else if ltb c 0x800 then 2 else if ltb c 0x10000 then 3 else 4

-- A continuation byte that holds the low six bits of `n`.
abbrev continuation : ℕ → ℕ
continuation n = 0x80 + n % 64

-- `char::encode_utf8`.
unfoldable pub encode_utf8 : ℕ → Bytes
encode_utf8 c =
    if ltb c 0x80
    then c ∷ []
    else if ltb c 0x800
    then (0xc0 + c / 64) ∷ continuation c ∷ []
    else if ltb c 0x10000
    then (0xe0 + c / 4096) ∷ continuation (c / 64) ∷ continuation c ∷ []
    else (0xf0 + c / 262144) ∷ continuation (c / 4096) ∷ continuation (c / 64) ∷ continuation c ∷ []

-- `String::into_bytes`, `str::as_bytes`.
unfoldable pub into_bytes : Text → Bytes
into_bytes [] = []
into_bytes (c ∷ cs) = encode_utf8 c ++ into_bytes cs

-- `str::len`: the length in bytes.
unfoldable pub len : Text → ℕ
len [] = 0
len (c ∷ cs) = len_utf8 c + len cs

-- The text before and behind a byte index, which must be a character boundary.
unfoldable pub split_at : Text → ℕ → Option (Text × Text)
split_at [] i = if i == 0 then some ([], []) else none
split_at (c ∷ cs) i =
    if i == 0
    then some ([], c ∷ cs)
    else if leb (len_utf8 c) i
    then elim (split_at cs (i - len_utf8 c)) [ none ↦ none | some (l, r) ↦ some (c ∷ l, r) ]
    else none

-- What may follow a leading byte: the number of continuation bytes, and the range of the first.
lead : ℕ → Option (ℕ × ℕ × ℕ)
lead b =
    if ltb b 0x80
    then some (0, 0x80, 0xbf)
    else if ltb b 0xc2
    then none
    else if ltb b 0xe0
    then some (1, 0x80, 0xbf)
    else if b == 0xe0
    then some (2, 0xa0, 0xbf)
    else if b == 0xed
    then some (2, 0x80, 0x9f)
    else if ltb b 0xf0
    then some (2, 0x80, 0xbf)
    else if b == 0xf0
    then some (3, 0x90, 0xbf)
    else if ltb b 0xf4
    then some (3, 0x80, 0xbf)
    else if b == 0xf4
    then some (3, 0x80, 0x8f)
    else none

-- The check of `std::str::from_utf8` with `n` continuation bytes due.
check_utf8 : ℕ → ℕ → ℕ → Bytes → Bool
check_utf8 zero lo hi [] = true
check_utf8 (suc n) lo hi [] = false
check_utf8 zero lo hi (b ∷ bs) = elim (lead b) [
  | none ↦ false
  | some (n, lo', hi') ↦ check_utf8 n lo' hi' bs
]
check_utf8 (suc n) lo hi (b ∷ bs) = (leb lo b && leb b hi) && check_utf8 n 0x80 0xbf bs

unfoldable pub is_utf8 : Bytes → Bool
unfolding check_utf8 lead
is_utf8 = check_utf8 0 0x80 0xbf

-- A Unicode scalar value: a code point that is no surrogate.
abbrev pub IsScalar : ℕ → Type 0
IsScalar c = (c < 0x110000) × ((c < 0xd800) ⊎ (0xdfff < c))
