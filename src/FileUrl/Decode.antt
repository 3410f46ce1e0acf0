-- ===== src/FileUrl/Decode.antt =====
-- Percent-decoding reads back what percent-encoding writes, byte by byte.
use tiny_ssh.Base.{
  ℕ, ◌+◌, ◌-◌, ◌/◌, ◌%◌, ◌<◌, ◌≡◌, ◌≢◌, refl, ◌∙◌, ap, ◌↔◌, Bool, true, Bool-cases, inl, inr, some,
  [], ◌∷◌, ◌++◌, append-nil, append_assoc, arith, ltb, if◌then◌else◌, All, Bytes, codes,
}
use tiny_ssh.Utf8.{Text, into_bytes, IsScalar}
use tiny_ssh.Utf8.Ascii.{IsAscii, is_utf8_of_ascii, into_bytes_iff, into_bytes-IsByte}
use tiny_ssh.FileUrl.{strip_prefix, from_slash, to_digit, decode, decode_hex, parse_file_url}

-- The upper-case digit of a number below 16.
pub hex_digit : ℕ → ℕ
hex_digit n = if ltb n 10 then b'0' + n else b'A' + n - 10

pub percent_byte : ℕ → Bytes
percent_byte b = b'%' ∷ hex_digit (b / 16) ∷ hex_digit (b % 16) ∷ []

-- `keep` says which bytes a shell writes as they are.
abbrev pub percent_encode : (ℕ → Bool) → Bytes → Bytes
percent_encode keep [] = []
percent_encode keep (b ∷ bs) = (if keep b then b ∷ [] else percent_byte b) ++ percent_encode keep bs

-- Only ASCII other than `%` may be written as it is.
abbrev pub IsKept : (ℕ → Bool) → Type 0
IsKept keep = (b : ℕ) → keep b ≡ true → (b < 0x80) × (b ≢ b'%')

to_digit-hex_digit : (n : ℕ) → n < 16 → to_digit (hex_digit n) ≡ some n
unfolding to_digit hex_digit
to_digit-hex_digit n h = ground arith

decode-percent_byte :
    (b : ℕ) (bs : Bytes) (out : Text)
    → b < 256
    → decode (percent_byte b ++ bs) out ≡ decode bs (out ++ b ∷ [])
unfolding decode decode_hex percent_byte
decode-percent_byte b bs out h =
    ground (arith, to_digit-hex_digit (b / 16), to_digit-hex_digit (b % 16))

decode-plain :
    (b : ℕ) (bs : Bytes) (out : Text) → b ≢ b'%' → decode (b ∷ bs) out ≡ decode bs (out ++ b ∷ [])
unfolding decode
decode-plain b bs out h = ground arith

module _ (keep : ℕ → Bool) (kept : IsKept keep) where
  decode-percent_encode :
      (bs : Bytes) (out : Text)
      → All (λ b. b < 256) bs
      → decode (percent_encode keep bs) out ≡ some (out ++ bs)
  decode-percent_encode [] out h = unfold decode in rw append-nil
  decode-percent_encode (b ∷ bs) out h = elim (Bool-cases (keep b)) [
    | inl k ↦ rw k (
        decode-plain b (percent_encode keep bs) out (kept b k).1
        ∙ decode-percent_encode bs (out ++ b ∷ []) h.1
        ∙ rw append_assoc)
    | inr k ↦ rw k (
        decode-percent_byte b (percent_encode keep bs) out h.0
        ∙ decode-percent_encode bs (out ++ b ∷ []) h.1
        ∙ rw append_assoc)
  ]

  percent_encode-IsAscii :
      (bs : Bytes) → All (λ b. b < 256) bs → All (λ b. b < 0x80) (percent_encode keep bs)
  unfolding percent_byte hex_digit
  percent_encode-IsAscii [] h = tt
  percent_encode-IsAscii (b ∷ bs) h = elim (Bool-cases (keep b)) [
    | inl k ↦ rw k ((kept b k).0, percent_encode-IsAscii bs h.1)
    | inr k ↦ rw k (omega arith, (ground arith, (ground arith, percent_encode-IsAscii bs h.1)))
  ]

All-append {ℓ} : (P : ℕ → Type ℓ) (xs ys : Bytes) → All P xs → All P ys → All P (xs ++ ys)
All-append P [] ys h k = k
All-append P (x ∷ xs) ys h k = (h.0, All-append P xs ys h.1 k)

-- The URL that a shell reports: `file://`, a host without a slash, and the encoded path.
abbrev pub file_url : (ℕ → Bool) → Bytes → Bytes → Bytes
file_url keep host path = codes "file://" ++ (host ++ (b'/' ∷ percent_encode keep path))

abbrev pub IsHost : Bytes → Type 0
IsHost host = All (λ b. (b < 0x80) × (b ≢ b'/')) host

host-IsAscii : (host : Bytes) → IsHost host → All (λ b. b < 0x80) host
host-IsAscii [] h = tt
host-IsAscii (b ∷ bs) h = (h.0.0, host-IsAscii bs h.1)

file_url-IsAscii :
    (keep : ℕ → Bool)
    → IsKept keep
    → (host path : Bytes) → IsHost host
    → All (λ b. b < 256) path
    → All (λ b. b < 0x80) (file_url keep host path)
file_url-IsAscii keep kept host path h p =
    All-append (λ b. b < 0x80) (codes "file://") (host ++ (b'/' ∷ percent_encode keep path))
      (omega arith)
      (All-append (λ b. b < 0x80) host (b'/' ∷ percent_encode keep path) (host-IsAscii host h)
        (omega arith, percent_encode-IsAscii keep kept path p))

from_slash-host :
    (host rest : Bytes) → IsHost host → from_slash (host ++ (b'/' ∷ rest)) ≡ some (b'/' ∷ rest)
unfolding from_slash
from_slash-host [] rest h = refl
from_slash-host (b ∷ bs) rest h = ground (arith, from_slash-host bs rest h.1)

-- A path of any bytes, percent-encoded in any style, becomes the text with one character for each
-- byte, of the byte's value.
pub parse_file_url-file_url :
    (keep : ℕ → Bool)
    → IsKept keep
    → (host path : Bytes) → IsHost host
    → All (λ b. b < 256) path
    → parse_file_url (file_url keep host path) ≡ some (b'/' ∷ path)
unfolding parse_file_url strip_prefix
parse_file_url-file_url keep kept host path h p = ground (
  arith,
  is_utf8_of_ascii (file_url keep host path) (file_url-IsAscii keep kept host path h p),
  from_slash-host host (percent_encode keep path) h,
  decode-plain b'/' (percent_encode keep path) [],
  decode-percent_encode keep kept path (b'/' ∷ []) p,
)

-- The URL of a directory whose path has the characters `/` and `path`, which the remote encodes in
-- UTF-8, is read back as that path exactly when all its characters are ASCII.
pub parse_file_url_iff :
    (keep : ℕ → Bool)
    → IsKept keep
    → (host path : Text) → IsHost host
    → All IsScalar path
    → (parse_file_url (file_url keep host (into_bytes path)) ≡ some (b'/' ∷ path)) ↔ IsAscii path
parse_file_url_iff keep kept host path h p =
    let read =
      parse_file_url-file_url keep kept host (into_bytes path) h (into_bytes-IsByte path p) in
    (
      λ e. (into_bytes_iff path).0 (cc),
      λ a. read ∙ ap (λ t. some (b'/' ∷ t)) ((into_bytes_iff path).1 a),
    )
