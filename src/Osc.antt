-- ===== src/Osc.antt =====
-- `OscScanner` of crates/tiny-ssh-cli/src/term.rs: the scanner that sniffs OSC 7 and OSC 133 from
-- the bytes of the remote while they go to the terminal.
pub mod Chunks
pub mod Stream
pub mod Bounds
pub mod Split
pub mod Heard
pub mod Announce
pub mod Tests
use tiny_ssh.Base.{
  ℕ, Option, none, some, List, [], ◌∷◌, ◌++◌, ltb, ◌==◌, if◌then◌else◌, length, Bytes, codes,
}
use tiny_ssh.Utf8.{Text}
use tiny_ssh.FileUrl.{strip_prefix, parse_file_url}

pub data OscEvent : Type 0 where
  prompt_start prompt_end command_start command_end : OscEvent
  cwd : Text → OscEvent

pub data ScanState : Type 0 where
  plain esc in_osc osc_maybe_st : ScanState

pub record OscScanner : Type 0 where
  pub state : ScanState
  pub payload : Bytes

-- `OscScanner::default()`.
abbrev pub default : OscScanner
default = record { state = plain; payload = [] }

abbrev pub osc_payload_cap : ℕ
osc_payload_cap = 4096

-- `match rest.first()`.
push_marker : Bytes → List OscEvent → List OscEvent
push_marker [] out = out
push_marker (m ∷ _) out =
    if m == b'A'
    then out ++ prompt_start ∷ []
    else if m == b'B'
    then out ++ prompt_end ∷ []
    else if m == b'C'
    then out ++ command_start ∷ []
    else if m == b'D'
    then out ++ command_end ∷ []
    else out

unfoldable pub dispatch : OscScanner → List OscEvent → List OscEvent
unfolding push_marker
dispatch s out = elim (strip_prefix (codes "7;") s.payload) [
  | some rest ↦ elim (parse_file_url rest) [ some path ↦ out ++ cwd path ∷ [] | none ↦ out ]
  | none ↦ elim (strip_prefix (codes "133;") s.payload) [
    | some rest ↦ push_marker rest out
    | none ↦ out
  ]
]

-- One round of the loop of `scan`, by the state.
unfoldable pub scan_byte : ScanState → OscScanner → ℕ → List OscEvent → OscScanner × List OscEvent
scan_byte plain s b out = (if b == 0x1b then record s { state = esc } else s, out)
scan_byte esc s b out =
    (if b == b']' then record { state = in_osc; payload = [] } else record s { state = plain }, out)
scan_byte in_osc s b out =
    if b == 0x07
    then (record { state = plain; payload = [] }, dispatch s out)
    else if b == 0x1b
    then (record s { state = osc_maybe_st }, out)
    else (
      if ltb (length s.payload) osc_payload_cap
          then record s { payload = s.payload ++ b ∷ [] }
          else s,
      out,
    )
scan_byte osc_maybe_st s b out =
    (record { state = plain; payload = [] }, if b == b'\\' then dispatch s out else out)

unfoldable pub scan : OscScanner → Bytes → List OscEvent → OscScanner × List OscEvent
scan s [] out = (s, out)
scan s (b ∷ bs) out = let (s', out') = scan_byte s.state s b out in scan s' bs out'
