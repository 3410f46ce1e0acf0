-- ===== src/Osc/Stream.antt =====
-- A stream as a sequence of printed bytes, escapes and OSC strings, and what the scanner reports
-- of it.
use tiny_ssh.Base.{
  ℕ, zero, suc, ◌+◌, ◌≤◌, ◌<◌, ◌≡◌, ◌≢◌, refl, ◌∙◌, ap, List, [], ◌∷◌, ◌++◌, append-nil,
  append_assoc, take, length, length-append, arith, All, Bytes,
}
use tiny_ssh.Osc.{
  OscEvent, OscScanner, in_osc, osc_maybe_st, default, osc_payload_cap, dispatch, scan_byte, scan,
}
use tiny_ssh.Osc.Chunks.{dispatch-append}

-- BEL, or ST as ESC and a backslash.
pub data Terminator : Type 0 where
  bel st : Terminator

pub data Item : Type 0 where
  printed : ℕ → Item
  escape : ℕ → Item
  osc : Bytes → Terminator → Item
  aborted : Bytes → ℕ → Item

abbrev pub terminator_bytes : Terminator → Bytes
terminator_bytes bel = 0x07 ∷ []
terminator_bytes st = 0x1b ∷ b'\\' ∷ []

abbrev pub bytes_of : Item → Bytes
bytes_of (printed b) = b ∷ []
bytes_of (escape b) = 0x1b ∷ b ∷ []
bytes_of (osc p t) = 0x1b ∷ b']' ∷ (p ++ terminator_bytes t)
bytes_of (aborted p b) = 0x1b ∷ b']' ∷ (p ++ (0x1b ∷ b ∷ []))

-- A byte that does not end the payload.
abbrev pub IsPayloadByte : ℕ → Type 0
IsPayloadByte b = (b ≢ 0x07) × (b ≢ 0x1b)

abbrev pub IsItem : Item → Type 0
IsItem (printed b) = b ≢ 0x1b
IsItem (escape b) = b ≢ b']'
IsItem (osc p t) = All IsPayloadByte p
IsItem (aborted p b) = All IsPayloadByte p × (b ≢ b'\\')

-- The scanner inside an OSC string, with payload `q`.
abbrev pub inside : Bytes → OscScanner
inside q = record { state = in_osc; payload = q }

-- Only a finished OSC string is reported, by the first `OSC_PAYLOAD_CAP` bytes of its payload.
abbrev pub events_of : Item → List OscEvent
events_of (osc p t) = dispatch (inside (take osc_payload_cap p)) []
events_of _ = []

abbrev pub render : List Item → Bytes
render [] = []
render (i ∷ is) = bytes_of i ++ render is

abbrev pub events : List Item → List OscEvent
events [] = []
events (i ∷ is) = events_of i ++ events is

scan_byte-store :
    (q : Bytes) (b : ℕ) (out : List OscEvent)
    → length q < osc_payload_cap
    → IsPayloadByte b
    → scan_byte in_osc (inside q) b out ≡ (inside (q ++ b ∷ []), out)
unfolding scan_byte
scan_byte-store q b out h n = ground arith

scan_byte-full :
    (q : Bytes) (b : ℕ) (out : List OscEvent)
    → osc_payload_cap ≤ length q
    → IsPayloadByte b
    → scan_byte in_osc (inside q) b out ≡ (inside q, out)
unfolding scan_byte
scan_byte-full q b out h n = ground arith

scan_from :
    (bs : Bytes) {r r' : OscScanner × List OscEvent} → r ≡ r' → scan r.0 bs r.1 ≡ scan r'.0 bs r'.1
scan_from bs e = ap (λ (r : OscScanner × List OscEvent). scan r.0 bs r.1) e

-- With room for `k` more bytes, the scanner keeps the first `k` bytes of the payload.
pub scan-payload :
    (p : Bytes) (k : ℕ) (q rest : Bytes) (out : List OscEvent)
    → length q + k ≡ osc_payload_cap
    → All IsPayloadByte p
    → scan (inside q) (p ++ rest) out ≡ scan (inside (q ++ take k p)) rest out
unfolding scan
scan-payload [] zero q rest out h n = rw append-nil
scan-payload [] (suc k) q rest out h n = rw append-nil
scan-payload (b ∷ p) zero q rest out h n =
    scan_from (p ++ rest) (scan_byte-full q b out (omega arith) n.0)
    ∙ scan-payload p zero q rest out h n.1
scan-payload (b ∷ p) (suc k) q rest out h n =
    scan_from (p ++ rest) (scan_byte-store q b out (omega arith) n.0)
    ∙ scan-payload p k (q ++ b ∷ []) rest out (omega (arith, length-append q (b ∷ []))) n.1
    ∙ rw append_assoc

dispatch-state :
    (s : OscScanner) (out : List OscEvent) → dispatch s out ≡ out ++ dispatch (inside s.payload) []
dispatch-state s out = dispatch-append s out ∙ ap (out ++◌) (unfold dispatch in refl)

scan_byte-aborted :
    (q : Bytes) (b : ℕ) (out : List OscEvent)
    → b ≢ b'\\'
    → scan_byte osc_maybe_st (record { state = osc_maybe_st; payload = q }) b out
      ≡ (default, out ++ [])
unfolding scan_byte
scan_byte-aborted q b out h = ground (arith, append-nil out)

-- From its resting state the scanner passes an item, reports its events, and rests again.
pub scan-item :
    (i : Item) (rest : Bytes) (out : List OscEvent)
    → IsItem i
    → scan default (bytes_of i ++ rest) out ≡ scan default rest (out ++ events_of i)
unfolding scan scan_byte
scan-item (printed b) rest out h = ground (arith, append-nil out)
scan-item (escape b) rest out h = ground (arith, append-nil out)
scan-item (osc p bel) rest out h =
    rw (append_assoc, scan-payload p osc_payload_cap [] (0x07 ∷ rest) out refl h)
      (ap (scan default rest) (dispatch-append (inside (take osc_payload_cap p)) out))
scan-item (osc p st) rest out h =
    rw (append_assoc, scan-payload p osc_payload_cap [] (0x1b ∷ b'\\' ∷ rest) out refl h)
      (ap (scan default rest)
        (dispatch-state (record { state = osc_maybe_st; payload = take osc_payload_cap p }) out))
scan-item (aborted p b) rest out h =
    rw (append_assoc, scan-payload p osc_payload_cap [] (0x1b ∷ b ∷ rest) out refl h.0)
      (scan_from rest (scan_byte-aborted (take osc_payload_cap p) b out h.1))

-- Every stream of items, from the resting state: the events are those of its OSC strings, in
-- order.
pub scan-render :
    (is : List Item) (out : List OscEvent)
    → All IsItem is
    → scan default (render is) out ≡ (default, out ++ events is)
scan-render [] out h = unfold scan in rw append-nil
scan-render (i ∷ is) out h =
    scan-item i (render is) out h.0 ∙ scan-render is (out ++ events_of i) h.1 ∙ rw append_assoc
