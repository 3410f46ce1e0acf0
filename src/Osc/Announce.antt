-- ===== src/Osc/Announce.antt =====
-- What a payload announces, said without the scanner's tests.
use tiny_ssh.Base.{
  ◌≡◌, ◌∙◌, ap, ◌↔◌, some, List, [], ◌∷◌, ◌++◌, arith, Bytes, codes, subst, ◌==◌, Bool-cases,
  Option-cases, inl, inr,
}
use tiny_ssh.FileUrl.{strip_prefix, parse_file_url}
use tiny_ssh.Osc.{
  OscEvent, prompt_start, prompt_end, command_start, command_end, cwd, OscScanner, in_osc,
  push_marker, dispatch,
}

pub strip_prefix_iff : (p s r : Bytes) → (strip_prefix p s ≡ some r) ↔ (s ≡ p ++ r)
unfolding strip_prefix
strip_prefix_iff [] s r = (λ h. cc, λ h. cc)
strip_prefix_iff (c ∷ p) [] r = (λ h. cc, λ h. cc)
strip_prefix_iff (c ∷ p) (b ∷ s) r = ground (arith, strip_prefix_iff p s r)

-- The payload that begins with the text `t`, and what follows it.
abbrev pub Begins : Bytes → Bytes → Type 0
Begins t p = (rest : Bytes) × (p ≡ t ++ rest)

abbrev pub Announces : Bytes → OscEvent → Type 0
Announces p prompt_start = Begins (codes "133;A") p
Announces p prompt_end = Begins (codes "133;B") p
Announces p command_start = Begins (codes "133;C") p
Announces p command_end = Begins (codes "133;D") p
Announces p (cwd path) = (url : Bytes) × (p ≡ codes "7;" ++ url) × (parse_file_url url ≡ some path)

abbrev pub reports : Bytes → List OscEvent
reports p = dispatch (record { state = in_osc; payload = p }) []

reports_announced : (p : Bytes) (e : OscEvent) → Announces p e → reports p ≡ e ∷ []
unfolding dispatch strip_prefix
reports_announced p prompt_start (r, h) = ap reports h
reports_announced p prompt_end (r, h) = ap reports h
reports_announced p command_start (r, h) = ap reports h
reports_announced p command_end (r, h) = ap reports h
reports_announced p (cwd path) (u, h, e) = ap reports h ∙ ground arith

found : (p : Bytes) (e : OscEvent) {f : OscEvent} → Announces p e → e ≡ f → Announces p f
found p e a q = subst (Announces p) q a

-- The case of `133;`.
marker_announced :
    (rest : Bytes) (e : OscEvent)
    → push_marker rest [] ≡ e ∷ []
    → Announces (codes "133;" ++ rest) e
unfolding push_marker
marker_announced [] e h = cc
marker_announced (m ∷ rest) e h = elim (Bool-cases (m == b'A')) [
  | inl t ↦ found p prompt_start (rest, ground arith) (ground arith)
  | inr f ↦ elim (Bool-cases (m == b'B')) [
    | inl t ↦ found p prompt_end (rest, ground arith) (ground arith)
    | inr g ↦ elim (Bool-cases (m == b'C')) [
      | inl t ↦ found p command_start (rest, ground arith) (ground arith)
      | inr k ↦ elim (Bool-cases (m == b'D')) [
        | inl t ↦ found p command_end (rest, ground arith) (ground arith)
        | inr l ↦ absurd (ground arith)
      ]
    ]
  ]
]
  where
    p : Bytes
    p = codes "133;" ++ (m ∷ rest)

announced_reports : (p : Bytes) (e : OscEvent) → reports p ≡ e ∷ [] → Announces p e
unfolding dispatch
announced_reports p e h = elim (Option-cases (strip_prefix (codes "7;") p)) [
  | inr (url, q) ↦ elim (Option-cases (parse_file_url url)) [
    | inr (path, f) ↦ found p (cwd path) (url, (strip_prefix_iff _ p url).0 q, f) (ground arith)
    | inl f ↦ absurd (ground arith)
  ]
  | inl q ↦ elim (Option-cases (strip_prefix (codes "133;") p)) [
    | inr (rest, f) ↦ rw ((strip_prefix_iff _ p rest).0 f) (marker_announced rest e (ground arith))
    | inl f ↦ absurd (ground arith)
  ]
]

-- A finished payload `p` is reported as the event `e` exactly when `p` is `7;` and a URL with a
-- path, or begins with `133;` and the letter of the marker `e`.
pub dispatch_iff :
    (s : OscScanner) (e : OscEvent) → (dispatch s [] ≡ e ∷ []) ↔ Announces s.payload e
unfolding dispatch
dispatch_iff s e = (announced_reports s.payload e, reports_announced s.payload e)
