-- ===== src/Osc/Heard.antt =====
-- What the scanner of crates/tiny-ssh-cli/src/term.rs hears of a stream, said without its tests.
use tiny_ssh.Base.{
  ◌≡◌, ◌⊎◌, ◌∙◌, sym, refl, ap, List, [], ◌∷◌, ◌++◌, take, Bytes, subst, inl, inr, codes, ◌==◌,
  Bool-cases, Option-cases,
}
use tiny_ssh.FileUrl.{strip_prefix, parse_file_url}
use tiny_ssh.Osc.{
  OscEvent, prompt_start, prompt_end, command_start, command_end, cwd, OscScanner, default,
  dispatch, push_marker, scan,
}
use tiny_ssh.Osc.Announce.{Announces, dispatch_iff}
use tiny_ssh.Osc.Stream.{Item, printed, escape, osc, aborted, events, inside}
use tiny_ssh.Osc.Split.{Split, scan-Split}

-- The events that the first 4096 bytes of the payloads of the finished OSC strings announce, in
-- order; a payload that announces none is passed over.
abbrev pub AnnouncedBy : List Item → List OscEvent → Type 0
AnnouncedBy [] es = es ≡ []
AnnouncedBy (osc p t ∷ is) es =
    ((e : OscEvent) × (es' : List OscEvent) × Announces (take 4096 p) e
      × (es ≡ e ∷ es')
      × AnnouncedBy is es')
    ⊎ (((e : OscEvent) → ¬ Announces (take 4096 p) e) × AnnouncedBy is es)
AnnouncedBy (_ ∷ is) es = AnnouncedBy is es

abbrev OneAtMost : List OscEvent → Type 0
OneAtMost d = (d ≡ []) ⊎ ((e : OscEvent) × (d ≡ e ∷ []))

marker-OneAtMost : (rest : Bytes) → OneAtMost (push_marker rest [])
unfolding push_marker
marker-OneAtMost [] = inl refl
marker-OneAtMost (m ∷ rest) = elim (Bool-cases (m == b'A')) [
  | inl t ↦ rw (OneAtMost, t) (inr (prompt_start, refl))
  | inr f ↦ elim (Bool-cases (m == b'B')) [
    | inl t ↦ rw (OneAtMost, f, t) (inr (prompt_end, refl))
    | inr g ↦ elim (Bool-cases (m == b'C')) [
      | inl t ↦ rw (OneAtMost, f, g, t) (inr (command_start, refl))
      | inr h ↦ elim (Bool-cases (m == b'D')) [
        | inl t ↦ rw (OneAtMost, f, g, h, t) (inr (command_end, refl))
        | inr k ↦ rw (OneAtMost, f, g, h, k) (inl refl)
      ]
    ]
  ]
]

-- A payload is reported once at most.
dispatch-OneAtMost : (s : OscScanner) → OneAtMost (dispatch s [])
unfolding dispatch strip_prefix
dispatch-OneAtMost s = elim (Option-cases (strip_prefix (codes "7;") s.payload)) [
  | inr (url, q) ↦ elim (Option-cases (parse_file_url url)) [
    | inr (path, f) ↦ rw (OneAtMost, q, f) (inr (cwd path, refl))
    | inl f ↦ rw (OneAtMost, q, f) (inl refl)
  ]
  | inl q ↦ elim (Option-cases (strip_prefix (codes "133;") s.payload)) [
    | inr (rest, f) ↦ rw (q, f) (marker-OneAtMost rest)
    | inl f ↦ rw (OneAtMost, q, f) (inl refl)
  ]
]

heard :
    (p : Bytes) (is : List Item) (d : List OscEvent)
    → dispatch (inside (take 4096 p)) [] ≡ d
    → (d ≡ []) ⊎ ((e : OscEvent) × (d ≡ e ∷ []))
    → AnnouncedBy is (events is)
    → ((e : OscEvent) × (es' : List OscEvent) × Announces (take 4096 p) e
        × (d ++ events is ≡ e ∷ es')
        × AnnouncedBy is es')
      ⊎ (((e : OscEvent) → ¬ Announces (take 4096 p) e) × AnnouncedBy is (d ++ events is))
heard p is d q (inl n) h = inr (
  (λ e a.
      let r : dispatch (inside (take 4096 p)) [] ≡ e ∷ [] =
        (dispatch_iff (inside (take 4096 p)) e).1 a in
      cc),
  subst (λ x. AnnouncedBy is (x ++ events is)) (sym n) h,
)
heard p is d q (inr (e, n)) h =
    inl (
      e,
      events is,
      (dispatch_iff (inside (take 4096 p)) e).0 (q ∙ n),
      ap (λ x. x ++ events is) n,
      h,
    )

events-AnnouncedBy : (is : List Item) → AnnouncedBy is (events is)
events-AnnouncedBy [] = refl
events-AnnouncedBy (osc p t ∷ is) =
    heard p is _ refl (dispatch-OneAtMost (inside (take 4096 p))) (events-AnnouncedBy is)
events-AnnouncedBy (printed b ∷ is) = events-AnnouncedBy is
events-AnnouncedBy (escape b ∷ is) = events-AnnouncedBy is
events-AnnouncedBy (aborted p b ∷ is) = events-AnnouncedBy is

-- Every byte stream splits into printed bytes, escapes, finished and aborted OSC strings and an
-- unfinished rest, and the scanner reports of it what the first 4096 bytes of the payloads of the
-- finished OSC strings announce, in order: the markers behind `133;`, and the paths of the URLs
-- behind `7;`.
pub scan_stream :
    (bytes : Bytes) → (s : Split bytes) × AnnouncedBy s.items (scan default bytes []).1
scan_stream bytes =
    let (s, e) = scan-Split bytes in
    (s, subst (AnnouncedBy s.items) (sym e) (events-AnnouncedBy s.items))
