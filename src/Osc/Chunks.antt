-- ===== src/Osc/Chunks.antt =====
-- `feed` may cut the stream anywhere, and `scan` only ever appends events.
use tiny_ssh.Base.{ℕ, ◌≡◌, refl, List, [], ◌∷◌, ◌++◌, append-nil, append_assoc, arith, Bytes}
use tiny_ssh.Osc.{
  OscEvent, ScanState, plain, esc, in_osc, osc_maybe_st, OscScanner, dispatch, scan_byte, scan,
}

pub dispatch-append : (s : OscScanner) (out : List OscEvent) → dispatch s out ≡ out ++ dispatch s []
unfolding dispatch
dispatch-append s out = ground (arith, append-nil out)

scan_byte-append :
    (m : ScanState) (s : OscScanner) (b : ℕ) (out : List OscEvent)
    → scan_byte m s b out ≡ ((scan_byte m s b []).0, out ++ (scan_byte m s b []).1)
unfolding scan_byte
scan_byte-append plain s b out = ground (arith, append-nil out)
scan_byte-append esc s b out = ground (arith, append-nil out)
scan_byte-append in_osc s b out = ground (arith, append-nil out, dispatch-append s out)
scan_byte-append osc_maybe_st s b out = ground (arith, append-nil out, dispatch-append s out)

-- The events of a scan are appended to those that are pending, which have no influence on it.
pub scan-out :
    (bytes : Bytes) (s : OscScanner) (out : List OscEvent)
    → scan s bytes out ≡ ((scan s bytes []).0, out ++ (scan s bytes []).1)
unfolding scan
scan-out [] s out = ground (arith, append-nil out)
scan-out (b ∷ bs) s out =
    let (s', new) = scan_byte s.state s b [] in
    ground (
      arith,
      scan_byte-append s.state s b out,
      scan-out bs s' (out ++ new),
      scan-out bs s' new,
      append_assoc out new (scan s' bs []).1,
    )

-- A stream fed in two parts is scanned as if it came at once.
pub scan-append :
    (xs ys : Bytes) (s : OscScanner) (out : List OscEvent)
    → scan s (xs ++ ys) out ≡ scan (scan s xs out).0 ys (scan s xs out).1
unfolding scan
scan-append [] ys s out = refl
scan-append (x ∷ xs) ys s out =
    scan-append xs ys (scan_byte s.state s x out).0 (scan_byte s.state s x out).1
