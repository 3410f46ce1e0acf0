-- ===== src/Osc/Bounds.antt =====
-- The payload buffer of the scanner is bounded.
use tiny_ssh.Base.{ℕ, ◌≤◌, List, [], ◌∷◌, length, length-append, arith, Bytes}
use tiny_ssh.Osc.{
  OscEvent, ScanState, plain, esc, in_osc, osc_maybe_st, OscScanner, osc_payload_cap, scan_byte,
  scan,
}

scan_byte-IsBounded :
    (m : ScanState) (s : OscScanner) (b : ℕ) (out : List OscEvent)
    → length s.payload ≤ osc_payload_cap
    → length ((scan_byte m s b out).0).payload ≤ osc_payload_cap
unfolding scan_byte
scan_byte-IsBounded plain s b out h = ground arith
scan_byte-IsBounded esc s b out h = ground arith
scan_byte-IsBounded in_osc s b out h = ground (arith, length-append s.payload (b ∷ []))
scan_byte-IsBounded osc_maybe_st s b out h = ground arith

-- Whatever the remote sends, the scanner never holds more than `OSC_PAYLOAD_CAP` bytes.
pub length-scan-le :
    (bytes : Bytes) (s : OscScanner) (out : List OscEvent)
    → length s.payload ≤ osc_payload_cap
    → length ((scan s bytes out).0).payload ≤ osc_payload_cap
unfolding scan
length-scan-le [] s out h = h
length-scan-le (b ∷ bs) s out h =
    length-scan-le bs (scan_byte s.state s b out).0 (scan_byte s.state s b out).1
      (scan_byte-IsBounded s.state s b out h)
