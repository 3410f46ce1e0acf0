-- ===== src/Target/Forms.antt =====
-- The forms of a target and what each means.
use tiny_ssh.Base.{
  ℕ, ◌≤◌, ◌<◌, ◌≡◌, ◌≢◌, refl, sym, ap, ◌∙◌, none, some, [], ◌∷◌, ◌++◌, append_assoc, All, arith,
  ok,
}
use tiny_ssh.Utf8.{Text}
use tiny_ssh.Decimal.{display, parse_digits}
use tiny_ssh.Decimal.RoundTrip.{IsDigit, display-IsDigit, parse_digits-display, display-ne_nil}
use tiny_ssh.Target.{
  Target, split_once, rsplit_once, parse_u16, small_digits, with_port, behind_bracket, with_colon,
  parse_rest, parse_target,
}

-- `user@host`, `user@host:port`, and a host in brackets with or without a port.
pub data Form : Type 0 where
  bare : Text → Text → Form
  ported : Text → Text → ℕ → Form
  bracketed : Text → Text → Form
  bracketed_port : Text → Text → ℕ → Form

abbrev pub render : Form → Text
render (bare user host) = user ++ b'@' ∷ host
render (ported user host port) = user ++ b'@' ∷ (host ++ b':' ∷ display port)
render (bracketed user host) = user ++ b'@' ∷ b'[' ∷ (host ++ b']' ∷ [])
render (bracketed_port user host port) = user ++ b'@' ∷ b'[' ∷ (host ++ b']' ∷ b':' ∷ display port)

abbrev pub meaning : Form → Target
meaning (bare user host) = (user, host, none)
meaning (ported user host port) = (user, host, some port)
meaning (bracketed user host) = (user, host, none)
meaning (bracketed_port user host port) = (user, host, some port)

abbrev pub Without : ℕ → Text → Type 0
Without c = All (λ d. d ≢ c)

abbrev pub IsUser : Text → Type 0
IsUser user = (user ≢ []) × Without b'@' user

-- A host that does not begin with a bracket.
abbrev pub IsPlain : Text → Type 0
IsPlain [] = Unit
IsPlain (c ∷ cs) = c ≢ b'['

-- The last of a text's colons, as for an address of version 6.
abbrev pub HasColon : Text → Type 0
HasColon host = (l : Text) × (r : Text) × (host ≡ l ++ b':' ∷ r) × Without b':' r

abbrev pub IsForm : Form → Type 0
IsForm (bare user host) = IsUser user × Without b':' host
IsForm (ported user host port) = IsUser user × IsPlain host × (port ≤ 0xffff)
IsForm (bracketed user host) = IsUser user × Without b']' host × HasColon host
IsForm (bracketed_port user host port) = IsUser user × Without b']' host × (port ≤ 0xffff)

split_once-append : (c : ℕ) (l r : Text) → Without c l → split_once c (l ++ c ∷ r) ≡ some (l, r)
unfolding split_once
split_once-append c [] r h = ground arith
split_once-append c (d ∷ l) r h = ground (arith, split_once-append c l r h.1)

rsplit_once-none : (c : ℕ) (s : Text) → Without c s → rsplit_once c s ≡ none
unfolding rsplit_once
rsplit_once-none c [] h = refl
rsplit_once-none c (d ∷ s) h = ground (arith, rsplit_once-none c s h.1)

rsplit_once-append : (c : ℕ) (l r : Text) → Without c r → rsplit_once c (l ++ c ∷ r) ≡ some (l, r)
unfolding rsplit_once
rsplit_once-append c [] r h = ground (arith, rsplit_once-none c r h)
rsplit_once-append c (d ∷ l) r h = ground (arith, rsplit_once-append c l r h)

digits-Without : (c : ℕ) (ds : Text) → 57 < c → All IsDigit ds → Without c ds
digits-Without c [] h k = tt
digits-Without c (d ∷ ds) h k = (omega (arith, k.0.1), digits-Without c ds h k.1)

small_digits-display :
    (ds : Text) (n : ℕ)
    → ds ≢ []
    → n ≤ 0xffff
    → parse_digits 0 ds ≡ some n
    → All IsDigit ds
    → parse_u16 ds ≡ some n
unfolding small_digits parse_u16
small_digits-display [] n ne h e k = absurd (ne refl)
small_digits-display (d ∷ ds) n ne h e k = ground (arith, k.0.0)

parse_u16-display : (n : ℕ) → n ≤ 0xffff → parse_u16 (display n) ≡ some n
parse_u16-display n h =
    small_digits-display (display n) n (display-ne_nil n) h (parse_digits-display n (omega arith))
      (display-IsDigit n)

with_port-display :
    (user host : Text) (n : ℕ)
    → n ≤ 0xffff
    → with_port user host (display n) ≡ ok (user, host, some n)
unfolding with_port
with_port-display user host n h = rw (with_port, parse_u16-display n h) refl

parse_target-user :
    (user rest : Text) → IsUser user → parse_target (user ++ b'@' ∷ rest) ≡ parse_rest user rest
unfolding parse_target
parse_target-user [] rest h = absurd (h.0 refl)
parse_target-user (u ∷ us) rest h = rw (parse_target, split_once-append b'@' (u ∷ us) rest h.1) refl

with_colon-display :
    (user host : Text) (n : ℕ)
    → IsPlain host
    → n ≤ 0xffff
    → with_colon user (host ++ b':' ∷ display n) (host, display n) ≡ ok (user, host, some n)
unfolding with_colon
with_colon-display user [] n p h = ground (arith, with_port-display user [] n h)
with_colon-display user (c ∷ cs) n p h = ground (arith, with_port-display user (c ∷ cs) n h)

with_colon-bracket :
    (user host after : Text) (parts : Text × Text)
    → Without b']' host
    → with_colon user (b'[' ∷ (host ++ b']' ∷ after)) parts ≡ behind_bracket user host after
unfolding with_colon
with_colon-bracket user host after (l, r) h = rw (split_once-append b']' host after h) refl

parse_rest-colon :
    (user l r : Text)
    → Without b':' r
    → parse_rest user (l ++ b':' ∷ r) ≡ with_colon user (l ++ b':' ∷ r) (l, r)
unfolding parse_rest
parse_rest-colon user l r h = rw (parse_rest, rsplit_once-append b':' l r h) refl

parse_rest-bare :
    (user host : Text) → Without b':' host → parse_rest user host ≡ ok (user, host, none)
unfolding parse_rest
parse_rest-bare user host h = rw (parse_rest, rsplit_once-none b':' host h) refl

Without-append : (c : ℕ) (xs ys : Text) → Without c xs → Without c ys → Without c (xs ++ ys)
Without-append c [] ys h k = k
Without-append c (x ∷ xs) ys h k = (h.0, Without-append c xs ys h.1 k)

-- Every form of a target is read as what it means: a user, a host and a port; brackets are taken
-- off a host if a colon stands somewhere behind the `@`.
pub parse_target-render : (t : Form) → IsForm t → parse_target (render t) ≡ ok (meaning t)
parse_target-render (bare user host) h =
    parse_target-user user host h.0 ∙ parse_rest-bare user host h.1
parse_target-render (ported user host port) h =
    parse_target-user user (host ++ b':' ∷ display port) h.0
    ∙ parse_rest-colon user host (display port)
        (digits-Without b':' (display port) (omega arith) (display-IsDigit port))
    ∙ with_colon-display user host port h.1 h.2
parse_target-render (bracketed user host) (u, w, (l, r, q, k)) =
    parse_target-user user (b'[' ∷ (host ++ b']' ∷ [])) u
    ∙ ap (λ t. parse_rest user (b'[' ∷ (t ++ b']' ∷ []))) q
    ∙ ap (λ t. parse_rest user (b'[' ∷ t)) (append_assoc l (b':' ∷ r) (b']' ∷ []))
    ∙ parse_rest-colon user (b'[' ∷ l) (r ++ b']' ∷ [])
        (Without-append b':' r (b']' ∷ []) k (omega arith, tt))
    ∙ ap (λ t. with_colon user (b'[' ∷ t) (b'[' ∷ l, r ++ b']' ∷ []))
        (sym (append_assoc l (b':' ∷ r) (b']' ∷ [])) ∙ ap (◌++ (b']' ∷ [])) (sym q))
    ∙ with_colon-bracket user host [] (b'[' ∷ l, r ++ b']' ∷ []) w
    ∙ unfold behind_bracket in refl
parse_target-render (bracketed_port user host port) h =
    parse_target-user user (b'[' ∷ (host ++ b']' ∷ b':' ∷ display port)) h.0
    ∙ ap (parse_rest user) shape
    ∙ parse_rest-colon user (b'[' ∷ (host ++ b']' ∷ [])) (display port)
        (digits-Without b':' (display port) (omega arith) (display-IsDigit port))
    ∙ ap (λ t. with_colon user t (b'[' ∷ (host ++ b']' ∷ []), display port)) (sym shape)
    ∙ with_colon-bracket user host (b':' ∷ display port) (b'[' ∷ (host ++ b']' ∷ []), display port)
        h.1
    ∙ unfold behind_bracket in ground (arith, with_port-display user host port h.2)
  where
    shape :
        b'[' ∷ (host ++ b']' ∷ b':' ∷ display port)
        ≡ (b'[' ∷ (host ++ b']' ∷ [])) ++ b':' ∷ display port
    shape = ap (b'[' ∷◌) (sym (append_assoc host (b']' ∷ []) (b':' ∷ display port)))
