-- ===== src/FileUrl/Tests.antt =====
-- Directories as a shell reports them.
use tiny_ssh.Base.{ℕ, ◌≡◌, ◌↔◌, refl, Bool, ◌&&◌, ◌||◌, some, [], ◌∷◌, codes, arith, inl, ltb, ◌==◌}
use tiny_ssh.Utf8.{Text, into_bytes, is_utf8}
use tiny_ssh.Utf8.Ascii.{IsAscii}
use tiny_ssh.FileUrl.{parse_file_url, decode, to_digit, strip_prefix, from_slash}
use tiny_ssh.FileUrl.Decode.{IsKept, file_url, parse_file_url_iff}

parse_file_url_host : parse_file_url (codes "file://h/a%20b") ≡ some (codes "/a b")
unfolding parse_file_url decode to_digit strip_prefix from_slash is_utf8
parse_file_url_host = refl

-- Lower-case letters and slashes stay.
abbrev unreserved : ℕ → Bool
unreserved b = (ltb 96 b && ltb b 123) || b == b'/'

unreserved-IsKept : IsKept unreserved
unreserved-IsKept b h = (ground arith, ground arith)

-- A directory named by the two characters U+4F60 U+597D.
abbrev greeting : Text
greeting = 0x4f60 ∷ 0x597d ∷ []

parse_file_url_iff_example :
    (parse_file_url (file_url unreserved (codes "box") (into_bytes greeting))
      ≡ some (b'/' ∷ greeting))
    ↔ IsAscii greeting
parse_file_url_iff_example =
    parse_file_url_iff unreserved unreserved-IsKept (codes "box") greeting (omega arith)
      ((omega arith, inl (omega arith)), ((omega arith, inl (omega arith)), tt))
