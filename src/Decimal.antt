-- ===== src/Decimal.antt =====
-- The decimal `Display` of an unsigned number, as `format!` and `to_string` write it, and
-- `str::parse` on digits.
pub mod RoundTrip
use tiny_ssh.Base.{
  ℕ, zero, suc, ◌+◌, ◌-◌, ◌*◌, ◌/◌, ◌%◌, ◌&&◌, Option, none, some, [], ◌∷◌, ◌++◌, ltb, leb,
  if◌then◌else◌, Bytes,
}

-- At most `f` digits, the last one first to be found.
digits : ℕ → ℕ → Bytes
digits zero n = []
digits (suc f) n =
    let rest = digits f (n / 10) in (if ltb n 10 then [] else rest) ++ (48 + n % 10) ∷ []

-- Twenty digits are enough for every 64-bit number.
unfoldable pub display : ℕ → Bytes
unfolding digits
display = digits 20

-- The number that ASCII digits denote, behind the digits of `acc`.
unfoldable pub parse_digits : ℕ → Bytes → Option ℕ
parse_digits acc [] = some acc
parse_digits acc (d ∷ ds) =
    if leb b'0' d && leb d b'9' then parse_digits (acc * 10 + (d - 48)) ds else none
