-- ===== src/History/Like.antt =====
-- What the LIKE pattern of a suggestion matches.
use tiny_ssh.Base.{
  ◌≡◌, ◌∙◌, ap, Bool, true, false, ◌&&◌, ◌||◌, [], ◌∷◌, ◌++◌, ◌==◌, arith, Bool-cases, inl, inr,
}
use tiny_ssh.Utf8.{Text}
use tiny_ssh.Keys.{to_ascii_lowercase}
use tiny_ssh.History.{like_escape}
use tiny_ssh.History.Database.{Sqlite, LikeLaws}

-- `prefix` begins `s`, ASCII letters in either case.
unfoldable pub begins : Text → Text → Bool
begins [] s = true
begins (c ∷ cs) [] = false
begins (c ∷ cs) (d ∷ ds) = to_ascii_lowercase c == to_ascii_lowercase d && begins cs ds

-- The pattern of `suggest`.
abbrev pub pattern_of : Text → Text
pattern_of prefix = like_escape prefix ++ b'%' ∷ []

module _ (db : Sqlite) (laws : LikeLaws db) where
  open db use {like}

  -- No character of the prefix is a wildcard in the pattern: it matches the texts that begin with
  -- the prefix, ASCII letters in either case.
  pub like-pattern_of : (prefix s : Text) → like (pattern_of prefix) b'\\' s ≡ begins prefix s
  unfolding like_escape begins
  like-pattern_of [] s = laws.like_rest b'\\' s (omega arith)
  like-pattern_of (c ∷ cs) [] = elim (Bool-cases (c == b'\\' || c == b'%' || c == b'_')) [
    | inl special ↦
        rw special (laws.like_escaped_end b'\\' c (pattern_of cs) (omega arith) (omega arith))
    | inr literal ↦
        rw literal
          (laws.like_plain_end b'\\' c (pattern_of cs) (ground arith) (ground arith) (ground arith))
  ]
  like-pattern_of (c ∷ cs) (d ∷ ds) =
      let tail =
        ap (λ b. to_ascii_lowercase c == to_ascii_lowercase d && b) (like-pattern_of cs ds) in
      elim (Bool-cases (c == b'\\' || c == b'%' || c == b'_')) [
        | inl special ↦
            rw special
              (laws.like_escaped b'\\' c d (pattern_of cs) ds (omega arith) (omega arith) ∙ tail)
        | inr literal ↦ rw literal (
            laws.like_plain b'\\' c d (pattern_of cs) ds (ground arith) (ground arith)
              (ground arith)
            ∙ tail)
      ]
