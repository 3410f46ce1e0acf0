-- ===== src/Osc/Tests.antt =====
-- Runs of the scanner on concrete streams, and the theorems at inputs that meet their hypotheses.
use tiny_ssh.Base.{◌≡◌, ◌≤◌, ◌↔◌, refl, List, [], ◌∷◌, ◌++◌, codes, arith, Bytes, length}
use tiny_ssh.Utf8.{is_utf8}
use tiny_ssh.FileUrl.{parse_file_url, strip_prefix, decode}
use tiny_ssh.Osc.{
  prompt_start, prompt_end, cwd, default, dispatch, scan_byte, scan, osc_payload_cap,
}
use tiny_ssh.Osc.Stream.{
  Item, printed, escape, osc, aborted, bel, st, render, events, inside, scan-render,
}
use tiny_ssh.Osc.Split.{Split}
use tiny_ssh.Osc.Heard.{AnnouncedBy, scan_stream}
use tiny_ssh.Osc.Announce.{Announces, dispatch_iff}
use tiny_ssh.Osc.Bounds.{length-scan-le}

abbrev stream : Bytes
stream = 0x1b ∷ codes "]133;A" ++ 0x07 ∷ codes "$ " ++ 0x1b ∷ codes "]7;/x" ++ 0x1b ∷ codes "\\"

scan_markers : (scan default stream []).1 ≡ prompt_start ∷ cwd (codes "/x") ∷ []
unfolding scan scan_byte dispatch strip_prefix parse_file_url decode is_utf8
scan_markers = refl

abbrev items : List Item
items =
    escape b'A'
    ∷ printed b'$'
    ∷ aborted (codes "133;C") b'x'
    ∷ osc (codes "133;B") bel
    ∷ osc (codes "133;A") st
    ∷ []

events-items : events items ≡ prompt_end ∷ prompt_start ∷ []
unfolding dispatch strip_prefix
events-items = refl

scan-render_example : scan default (render items) [] ≡ (default, [] ++ events items)
scan-render_example = scan-render items [] (omega arith)

scan_stream_example : (s : Split stream) × AnnouncedBy s.items (scan default stream []).1
scan_stream_example = scan_stream stream

dispatch_iff_example :
    (dispatch (inside (codes "133;B")) [] ≡ prompt_end ∷ []) ↔ Announces (codes "133;B") prompt_end
dispatch_iff_example = dispatch_iff (inside (codes "133;B")) prompt_end

length-scan-le_example : length ((scan default stream []).0).payload ≤ osc_payload_cap
length-scan-le_example = length-scan-le stream default [] (omega arith)
