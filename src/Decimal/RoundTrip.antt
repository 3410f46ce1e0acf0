-- ===== src/Decimal/RoundTrip.antt =====
-- Reading back the digits of a number.
use native.Mathlib.Nat.{pow-suc}
use tiny_ssh.Base.{
  ℕ, zero, suc, ◌+◌, ◌-◌, ◌*◌, ◌/◌, ◌%◌, ◌^◌, ◌<◌, ◌≤◌, ◌≡◌, ◌≢◌, ◌∙◌, ap, lt→ltb, ltb→lt, some, [],
  ◌∷◌, ◌++◌, ltb, arith, Bytes, Bool-cases, inl, inr, All,
}
use tiny_ssh.Decimal.{digits, display, parse_digits}

abbrev pub IsDigit : ℕ → Type 0
IsDigit d = (48 ≤ d) × (d ≤ 57)

parse_digits-append :
    (ds : Bytes) (acc n : ℕ) (d : ℕ)
    → parse_digits acc ds ≡ some n
    → d < 10
    → parse_digits acc (ds ++ (48 + d) ∷ []) ≡ some (n * 10 + d)
unfolding parse_digits
parse_digits-append [] acc n d h k = ground arith
parse_digits-append (c ∷ ds) acc n d h k =
    ground (arith, parse_digits-append ds (acc * 10 + (c - 48)) n d)

one_digit : (n : ℕ) → n < 10 → parse_digits 0 ((48 + n % 10) ∷ []) ≡ some n
unfolding parse_digits
one_digit n h = ground arith

parse_digits-digits : (f n : ℕ) → n < 10 ^ suc f → parse_digits 0 (digits (suc f) n) ≡ some n
unfolding digits
parse_digits-digits zero n h = rw (lt→ltb n 10 h) (one_digit n h)
parse_digits-digits (suc f) n h = elim (Bool-cases (ltb n 10)) [
  | inl s ↦ rw s (one_digit n (ltb→lt n 10 s))
  | inr l ↦ rw l (
      parse_digits-append (digits (suc f) (n / 10)) 0 (n / 10) (n % 10)
        (parse_digits-digits f (n / 10) (omega (arith, pow-suc 10 (suc f)))) (omega arith)
      ∙ ap some (omega arith))
]

All-concat : (ds : Bytes) (d : ℕ) → All IsDigit ds → IsDigit d → All IsDigit (ds ++ d ∷ [])
All-concat [] d h k = (k, tt)
All-concat (c ∷ ds) d h k = (h.0, All-concat ds d h.1 k)

digits-IsDigit : (f n : ℕ) → All IsDigit (digits f n)
unfolding digits
digits-IsDigit zero n = tt
digits-IsDigit (suc f) n = elim (Bool-cases (ltb n 10)) [
  | inl s ↦ rw s (omega arith)
  | inr l ↦
      rw l (All-concat (digits f (n / 10)) (48 + n % 10) (digits-IsDigit f (n / 10)) (omega arith))
]

-- A 64-bit number is printed by digits alone.
pub display-IsDigit : (n : ℕ) → All IsDigit (display n)
unfolding display
display-IsDigit n = digits-IsDigit 20 n

pub parse_digits-display : (n : ℕ) → n < 2 ^ 64 → parse_digits 0 (display n) ≡ some n
unfolding display
parse_digits-display n h = parse_digits-digits 19 n (omega arith)

append-ne_nil : (ds : Bytes) (d : ℕ) → (ds ++ d ∷ []) ≢ []
append-ne_nil [] d e = cc
append-ne_nil (c ∷ ds) d e = cc

pub display-ne_nil : (n : ℕ) → display n ≢ []
unfolding display digits
display-ne_nil n = append-ne_nil _ _
