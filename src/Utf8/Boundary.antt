-- ===== src/Utf8/Boundary.antt =====
-- Lengths in bytes, and the byte indices at which a text may be cut.
use tiny_ssh.Base.{
  ℕ, ◌+◌, ◌-◌, ◌≤◌, ◌≡◌, refl, some, [], ◌∷◌, ◌++◌, arith, length, length-append, append_assoc,
}
use tiny_ssh.Utf8.{Text, len_utf8, encode_utf8, into_bytes, len, split_at}

pub len_utf8-pos : (c : ℕ) → 1 ≤ len_utf8 c
unfolding len_utf8
len_utf8-pos c = ground arith

length-encode_utf8 : (c : ℕ) → length (encode_utf8 c) ≡ len_utf8 c
unfolding encode_utf8 len_utf8
length-encode_utf8 c = ground arith

-- `len` is the length of the bytes.
pub length-into_bytes : (cs : Text) → length (into_bytes cs) ≡ len cs
unfolding into_bytes len
length-into_bytes [] = refl
length-into_bytes (c ∷ cs) = omega (
  arith,
  length-append (encode_utf8 c) (into_bytes cs),
  length-encode_utf8 c,
  length-into_bytes cs,
)

pub into_bytes-append : (xs ys : Text) → into_bytes (xs ++ ys) ≡ into_bytes xs ++ into_bytes ys
unfolding into_bytes
into_bytes-append [] ys = refl
into_bytes-append (x ∷ xs) ys = simp (into_bytes-append xs ys, append_assoc)

pub len-append : (xs ys : Text) → len (xs ++ ys) ≡ len xs + len ys
unfolding len
len-append [] ys = omega arith
len-append (x ∷ xs) ys = omega (arith, len-append xs ys)

pub length-le-len : (cs : Text) → length cs ≤ len cs
unfolding len
length-le-len [] = omega arith
length-le-len (c ∷ cs) = omega (arith, length-le-len cs, len_utf8-pos c)

-- The byte length of the first characters is a boundary, and cuts the text behind them.
pub split_at-len : (xs ys : Text) → split_at (xs ++ ys) (len xs) ≡ some (xs, ys)
unfolding split_at len
split_at-len [] [] = refl
split_at-len [] (y ∷ ys) = refl
split_at-len (x ∷ xs) ys =
    let e : len_utf8 x + len xs - len_utf8 x ≡ len xs = omega arith in
    ground (arith, len_utf8-pos x, split_at-len xs ys, e)
