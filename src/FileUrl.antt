-- ===== src/FileUrl.antt =====
-- `parse_file_url` of crates/tiny-ssh-cli/src/term.rs: the payload of OSC 7 as a path. A `PathBuf`
-- is the text that it was made from.
pub mod Decode
pub mod Tests
use tiny_ssh.Base.{
  ℕ, ◌+◌, ◌-◌, ◌*◌, ◌%◌, Bool, ◌&&◌, true, false, Option, none, some, [], ◌∷◌, ◌++◌, leb, ◌==◌,
  if◌then◌else◌, Bytes, codes,
}
use tiny_ssh.Utf8.{Text, is_utf8}

-- `strip_prefix` of slices and of `str`.
unfoldable pub strip_prefix : Bytes → Bytes → Option Bytes
strip_prefix [] s = some s
strip_prefix (p ∷ ps) [] = none
strip_prefix (p ∷ ps) (b ∷ s) = if p == b then strip_prefix ps s else none

-- `&rest[rest.find('/')?..]`.
unfoldable pub from_slash : Bytes → Option Bytes
from_slash [] = none
from_slash (b ∷ bs) = if b == b'/' then some (b ∷ bs) else from_slash bs

-- `char::to_digit(16)`.
unfoldable pub to_digit : ℕ → Option ℕ
to_digit c =
    if leb b'0' c && leb c b'9'
    then some (c - b'0')
    else if leb b'a' c && leb c b'f'
    then some (c - b'a' + 10)
    else if leb b'A' c && leb c b'F'
    then some (c - b'A' + 10)
    else none

-- `path_part`.
path_part : Bytes → Option Bytes
path_part s = elim (strip_prefix (codes "file://") s) [
  | some rest ↦ from_slash rest
  | none ↦ some s
]

-- The loop over `path_part.bytes()`; `decode_hex` has just taken a `%`.
unfoldable mutual
  pub decode : Bytes → Text → Option Text
  decode [] decoded = some decoded
  decode (b ∷ bs) decoded = elim (b == b'%') [
    | true ↦ decode_hex bs decoded
    | false ↦ decode bs (decoded ++ b ∷ [])
  ]

  pub decode_hex : Bytes → Text → Option Text
  decode_hex [] decoded = none
  decode_hex (h ∷ []) decoded = none
  decode_hex (h ∷ l ∷ bs) decoded = elim (to_digit h) [
    | none ↦ none
    | some high ↦ elim (to_digit l) [
      | none ↦ none
      | some low ↦ decode bs (decoded ++ (high * 16 + low) % 256 ∷ [])
    ]
  ]

-- `None` for an empty path.
non_empty : Text → Option Text
non_empty [] = none
non_empty (c ∷ cs) = some (c ∷ cs)

unfoldable pub parse_file_url : Bytes → Option Text
unfolding path_part non_empty
parse_file_url bytes =
    if is_utf8 bytes
    then elim (path_part bytes) [
      | none ↦ none
      | some path ↦ elim (decode path []) [ none ↦ none | some decoded ↦ non_empty decoded ]
    ]
    else none
