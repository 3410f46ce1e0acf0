-- ===== src/Target.antt =====
-- `parse_target` and `vt_dims` of crates/tiny-ssh-cli/src/main.rs: the command line's target and
-- the size of the terminal.
pub mod Forms
pub mod Tests
use Prim.Native.Nat.{max}
use tiny_ssh.Base.{
  ℕ, ◌-◌, Bool, true, false, Option, none, some, List, [], ◌∷◌, leb, ◌==◌, if◌then◌else◌, Result,
  ok, err,
}
use tiny_ssh.Utf8.{Text}
use tiny_ssh.Decimal.{parse_digits}

-- The messages of `parse_target`.
pub data TargetError : Type 0 where
  no_at empty_user unbalanced invalid_port : TargetError

-- `str::split_once` at a character.
unfoldable pub split_once : ℕ → Text → Option (Text × Text)
split_once c [] = none
split_once c (d ∷ ds) =
    let rest = split_once c ds in
    if d == c then some ([], ds) else elim rest [ some (l, r) ↦ some (d ∷ l, r) | none ↦ none ]

-- `str::rsplit_once` at a character.
unfoldable pub rsplit_once : ℕ → Text → Option (Text × Text)
rsplit_once c [] = none
rsplit_once c (d ∷ ds) = elim (rsplit_once c ds) [
  | some (l, r) ↦ some (d ∷ l, r)
  | none ↦ if d == c then some ([], ds) else none
]

-- The digits of a `u16`.
unfoldable pub small_digits : Text → Option ℕ
small_digits [] = none
small_digits (c ∷ cs) = elim (parse_digits 0 (c ∷ cs)) [
  | none ↦ none
  | some n ↦ if leb n 0xffff then some n else none
]

-- `str::parse::<u16>`: a plus sign may stand in front.
unfoldable pub parse_u16 : Text → Option ℕ
parse_u16 [] = none
parse_u16 (c ∷ cs) = if c == b'+' then small_digits cs else small_digits (c ∷ cs)

abbrev pub Target : Type 0
Target = Text × Text × Option ℕ

-- The port behind a colon.
unfoldable pub with_port : Text → Text → Text → Result TargetError Target
with_port user host port_s = elim (parse_u16 port_s) [
  | some p ↦ ok (user, host, some p)
  | none ↦ err invalid_port
]

-- Behind `]`: a port if a colon follows, and else none.
unfoldable pub behind_bracket : Text → Text → Text → Result TargetError Target
behind_bracket user host [] = ok (user, host, none)
behind_bracket user host (c ∷ cs) =
    if c == b':' then with_port user host cs else ok (user, host, none)

-- `rest` with a colon: the host is in brackets, or ends at the last colon.
unfoldable pub with_colon : Text → Text → Text × Text → Result TargetError Target
with_colon user [] (host, port_s) = with_port user host port_s
with_colon user (c ∷ cs) (host, port_s) =
    if c == b'['
    then elim (split_once b']' cs) [
      | none ↦ err unbalanced
      | some (h, after) ↦ behind_bracket user h after
    ]
    else with_port user host port_s

unfoldable pub parse_rest : Text → Text → Result TargetError Target
parse_rest user rest = elim (rsplit_once b':' rest) [
  | some parts ↦ with_colon user rest parts
  | none ↦ ok (user, rest, none)
]

unfoldable pub parse_target : Text → Result TargetError Target
parse_target s = elim (split_once b'@' s) [
  | none ↦ err no_at
  | some ([], rest) ↦ err empty_user
  | some (u ∷ us, rest) ↦ parse_rest (u ∷ us) rest
]

-- One row is the status line's.
unfoldable pub vt_dims : ℕ → ℕ → ℕ × ℕ
vt_dims total_cols total_rows = (max total_cols 1, max (total_rows - 1) 1)
