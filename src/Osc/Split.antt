-- ===== src/Osc/Split.antt =====
-- Every stream is a sequence of items and an unfinished rest, so the items describe all that the
-- scanner can meet.
use native.Mathlib.Decide.{ℕ_discrete}
use tiny_ssh.Base.{
  ◌≡◌, refl, ◌∙◌, sym, ap, List, [], ◌∷◌, ◌++◌, append-nil, append_assoc, All, Bytes,
}
use tiny_ssh.Osc.{OscEvent, osc_payload_cap, default, scan_byte, scan}
use tiny_ssh.Osc.Chunks.{scan-append}
use tiny_ssh.Osc.Stream.{
  Item, printed, escape, osc, aborted, bel, st, bytes_of, IsPayloadByte, IsItem, render, events,
  scan-payload, scan-render,
}

-- The end of a stream in the middle of an escape or an OSC string.
pub data IsTail : Bytes → Type 0 where
  nothing : {t : Bytes} → t ≡ [] → IsTail t
  escaped : {t : Bytes} → t ≡ 0x1b ∷ [] → IsTail t
  opened : {t : Bytes} (p : Bytes) → All IsPayloadByte p → t ≡ 0x1b ∷ b']' ∷ p → IsTail t
  closing :
      {t : Bytes} (p : Bytes) → All IsPayloadByte p → t ≡ 0x1b ∷ b']' ∷ (p ++ 0x1b ∷ []) → IsTail t

pub record Split (bytes : Bytes) : Type 0 where
  pub items : List Item
  pub tail : Bytes
  pub splits : bytes ≡ render items ++ tail
  pub items_ok : All IsItem items
  pub tail_ok : IsTail tail

Split-cons :
    (i : Item) {bs whole : Bytes} → IsItem i → whole ≡ bytes_of i ++ bs → Split bs → Split whole
Split-cons i {bs} {whole} h e s = record {
  items = i ∷ s.items;
  tail = s.tail;
  splits = e ∙ ap (bytes_of i ++◌) s.splits ∙ sym (append_assoc (bytes_of i) _ s.tail);
  items_ok = (h, s.items_ok);
  tail_ok = s.tail_ok;
}

Split-tail : {t : Bytes} → IsTail t → Split t
Split-tail {t} h = record { items = []; tail = t; splits = refl; items_ok = tt; tail_ok = h }

All-concat :
    (p : Bytes) {b : _} → All IsPayloadByte p → IsPayloadByte b → All IsPayloadByte (p ++ b ∷ [])
All-concat [] n h = (h, tt)
All-concat (c ∷ p) n h = (n.0, All-concat p n.1 h)

mutual
  Split-plain : (bs : Bytes) → Split bs
  Split-plain [] = Split-tail (nothing refl)
  Split-plain (b ∷ bs) = elim (ℕ_discrete b 0x1b) [
    | yes e ↦ rw e (Split-esc bs)
    | no n ↦ Split-cons (printed b) n refl (Split-plain bs)
  ]

  Split-esc : (bs : Bytes) → Split (0x1b ∷ bs)
  Split-esc [] = Split-tail (escaped refl)
  Split-esc (b ∷ bs) = elim (ℕ_discrete b b']') [
    | yes e ↦ rw e (Split-osc bs [] tt)
    | no n ↦ Split-cons (escape b) n refl (Split-plain bs)
  ]

  Split-osc : (bs p : Bytes) → All IsPayloadByte p → Split (0x1b ∷ b']' ∷ (p ++ bs))
  Split-osc [] p h = Split-tail (opened p h (rw append-nil))
  Split-osc (b ∷ bs) p h = elim (ℕ_discrete b 0x07) [
    | yes e ↦ rw e (Split-cons (osc p bel) h (rw append_assoc) (Split-plain bs))
    | no n ↦ elim (ℕ_discrete b 0x1b) [
      | yes e ↦ rw e (Split-st bs p h)
      | no m ↦ rw append_assoc at (Split-osc bs (p ++ b ∷ []) (All-concat p h (n, m)))
    ]
  ]

  Split-st : (bs p : Bytes) → All IsPayloadByte p → Split (0x1b ∷ b']' ∷ (p ++ 0x1b ∷ bs))
  Split-st [] p h = Split-tail (closing p h refl)
  Split-st (b ∷ bs) p h = elim (ℕ_discrete b b'\\') [
    | yes e ↦ rw e (Split-cons (osc p st) h (rw append_assoc) (Split-plain bs))
    | no n ↦ Split-cons (aborted p b) (h, n) (rw append_assoc) (Split-plain bs)
  ]

-- The unfinished rest reports nothing.
scan-tail : {t : Bytes} (out : List OscEvent) → IsTail t → (scan default t out).1 ≡ out
unfolding scan scan_byte
scan-tail out (nothing e) = rw e
scan-tail out (escaped e) = rw e
scan-tail out (opened p h e) =
    rw (e, ← append-nil p) (ap (λ r. r.1) (scan-payload p osc_payload_cap [] [] out refl h))
scan-tail out (closing p h e) =
    rw e (ap (λ r. r.1) (scan-payload p osc_payload_cap [] (0x1b ∷ []) out refl h))

-- What the scanner reports of a stream is what it dispatches of the items that it splits into.
pub scan-Split : (bytes : Bytes) → (s : Split bytes) × ((scan default bytes []).1 ≡ events s.items)
scan-Split bytes = (
  s,
  (ap (λ bs. (scan default bs []).1) s.splits
      ∙ ap (λ r. r.1) (scan-append (render s.items) s.tail default [])
      ∙ ap (λ r. (scan r.0 s.tail r.1).1) (scan-render s.items [] s.items_ok)
      ∙ scan-tail (events s.items) s.tail_ok),
)
  where
    s : Split bytes
    s = Split-plain bytes
