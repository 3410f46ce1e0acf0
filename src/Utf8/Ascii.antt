-- ===== src/Utf8/Ascii.antt =====
-- ASCII texts are their own bytes, and no others are.
use tiny_ssh.Base.{
  ℕ, ◌<◌, ◌≡◌, ◌↔◌, refl, sym, ap, ◌∙◌, true, [], ◌∷◌, ◌++◌, arith, Bytes, All, length, ltb,
  Bool-cases, inl, inr,
}
use tiny_ssh.Utf8.{Text, len_utf8, encode_utf8, into_bytes, len, is_utf8, IsScalar}
use tiny_ssh.Utf8.Boundary.{len_utf8-pos, length-into_bytes, length-le-len}

abbrev pub IsAscii : Text → Type 0
IsAscii = All (λ b. b < 0x80)

pub is_utf8_of_ascii : (bs : Bytes) → IsAscii bs → is_utf8 bs ≡ true
unfolding is_utf8
is_utf8_of_ascii [] h = refl
is_utf8_of_ascii (b ∷ bs) h = ground (arith, is_utf8_of_ascii bs h.1)

into_bytes_of_ascii : (cs : Text) → IsAscii cs → into_bytes cs ≡ cs
unfolding into_bytes encode_utf8
into_bytes_of_ascii [] h = refl
into_bytes_of_ascii (c ∷ cs) h = ground (arith, into_bytes_of_ascii cs h.1)

IsAscii-len : (cs : Text) → len cs ≡ length cs → IsAscii cs
unfolding len
IsAscii-len [] h = tt
IsAscii-len (c ∷ cs) h = (
  (unfold len_utf8 in ground (arith, length-le-len cs)),
  IsAscii-len cs (omega (arith, length-le-len cs, len_utf8-pos c)),
)

pub into_bytes_iff : (cs : Text) → (into_bytes cs ≡ cs) ↔ IsAscii cs
into_bytes_iff cs =
    ((λ e. IsAscii-len cs (sym (length-into_bytes cs) ∙ ap length e)), into_bytes_of_ascii cs)

encode_utf8-IsByte :
    (c : ℕ) (rest : Bytes)
    → c < 0x110000
    → All (λ b. b < 256) rest
    → All (λ b. b < 256) (encode_utf8 c ++ rest)
unfolding encode_utf8
encode_utf8-IsByte c rest h k = elim (Bool-cases (ltb c 0x80)) [
  | inl a ↦ rw a (ground arith, k)
  | inr a ↦ rw a (elim (Bool-cases (ltb c 0x800)) [
    | inl b ↦ rw b (ground arith, (ground arith, k))
    | inr b ↦ rw b (elim (Bool-cases (ltb c 0x10000)) [
      | inl d ↦ rw d (ground arith, (ground arith, (ground arith, k)))
      | inr d ↦ rw d (ground arith, (ground arith, (ground arith, (ground arith, k))))
    ])
  ])
]

-- The bytes of a text are bytes.
pub into_bytes-IsByte : (cs : Text) → All IsScalar cs → All (λ b. b < 256) (into_bytes cs)
unfolding into_bytes
into_bytes-IsByte [] h = tt
into_bytes-IsByte (c ∷ cs) h = encode_utf8-IsByte c (into_bytes cs) h.0.0 (into_bytes-IsByte cs h.1)
