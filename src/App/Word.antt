-- ===== src/App/Word.antt =====
-- `kill_word_backward` on the text before and behind the cursor.
use tiny_ssh.Base.{
  ℕ, zero, suc, ◌≤◌, ◌<◌, ◌≡◌, refl, sym, ◌∙◌, ap, Bool, false, some, List, [], ◌∷◌, ◌++◌,
  append-nil, append_assoc, ◌>>=◌, ◌==◌, le→leb, ==_iff, if◌then◌else◌, length, length-append,
  length-take, take, drop, arith, Bool-cases, inl, inr,
}
use tiny_ssh.Utf8.{Text}
use tiny_ssh.Terminal.{is_whitespace, keep_before, drop_last_while}
use tiny_ssh.App.{Shadow}
use tiny_ssh.App.Line.{At}
use tiny_ssh.App.Edit.{
  nth, slice_to, slice_from, skip_back, not_whitespace, word_start, cut_word, kill_word_backward,
}

module _ {ℓ} {A : Type ℓ} where
  pub take-length-append : (xs ys : List A) → take (length xs) (xs ++ ys) ≡ xs
  take-length-append [] ys = refl
  take-length-append (x ∷ xs) ys = ap (x ∷◌) (take-length-append xs ys)

  pub drop-length-append : (xs ys : List A) → drop (length xs) (xs ++ ys) ≡ ys
  drop-length-append [] ys = refl
  drop-length-append (x ∷ xs) ys = drop-length-append xs ys

  -- The elements before an index, and the one that stands there.
  take-suc :
      (xs : List A) (i : ℕ)
      → i < length xs
      → (x : A) × (nth i xs ≡ some x) × (take (suc i) xs ≡ take i xs ++ x ∷ [])
  unfolding nth
  take-suc [] i h = absurd (omega arith)
  take-suc (x ∷ xs) zero h = (x, refl, refl)
  take-suc (x ∷ xs) (suc i) h = let (y, n, t) = take-suc xs i (omega arith) in (y, n, ap (x ∷◌) t)

keep_before-concat :
    (p : ℕ → Bool) (x : ℕ) (xs : Text) (c : ℕ) → keep_before p x (xs ++ c ∷ []) ≡ x ∷ (xs ++ c ∷ [])
unfolding keep_before
keep_before-concat p x [] c = refl
keep_before-concat p x (d ∷ ds) c = refl

drop_last_while-concat :
    (p : ℕ → Bool) (xs : Text) (c : ℕ)
    → drop_last_while p (xs ++ c ∷ []) ≡ (if p c then drop_last_while p xs else xs ++ c ∷ [])
unfolding drop_last_while
drop_last_while-concat p [] c = unfold keep_before in refl
drop_last_while-concat p (x ∷ xs) c =
    rw (drop_last_while-concat p xs c)
      (elim (Bool-cases (p c)) [ inl b ↦ rw b | inr b ↦ rw b (keep_before-concat p x xs c) ])

keep_before-append :
    (p : ℕ → Bool) (c : ℕ) (t cs z : Text)
    → cs ≡ t ++ z
    → (z' : Text) × (c ∷ cs ≡ keep_before p c t ++ z')
unfolding keep_before
keep_before-append p c [] cs z e = elim (Bool-cases (p c)) [
  | inl b ↦ (c ∷ cs, rw b)
  | inr b ↦ (cs, rw b)
]
keep_before-append p c (d ∷ ds) cs z e = (z, ap (c ∷◌) e)

-- What is dropped stands at the end.
pub drop_last_while-append : (p : ℕ → Bool) (l : Text) → (z : Text) × (l ≡ drop_last_while p l ++ z)
unfolding drop_last_while
drop_last_while-append p [] = ([], refl)
drop_last_while-append p (c ∷ cs) =
    let (z, e) = drop_last_while-append p cs in keep_before-append p c (drop_last_while p cs) cs z e

skip_back-take :
    (test : ℕ → Bool) (chars : Text) (i : ℕ)
    → i ≤ length chars
    → skip_back test chars i ≡ some (length (drop_last_while test (take i chars)))
unfolding skip_back
skip_back-take test chars zero h = unfold drop_last_while in refl
skip_back-take test chars (suc i) h =
    let (c, n, t) = take-suc chars i (omega arith) in
    rw (n, t, drop_last_while-concat test (take i chars) c, ◌>>=◌)
      (elim (Bool-cases (test c)) [
        | inl b ↦ rw b (skip_back-take test chars i (omega arith))
        | inr b ↦
            rw b
              (ap some (omega (arith, length-append (take i chars) (c ∷ []), length-take i chars)))
      ])

-- Over a text that begins with `l`, from the end of `l`.
skip_back-length :
    (test : ℕ → Bool) (l r : Text)
    → skip_back test (l ++ r) (length l) ≡ some (length (drop_last_while test l))
skip_back-length test l r = rw (
  skip_back-take test (l ++ r) (length l) (omega (arith, length-append l r)),
  take-length-append l r,
)

-- The text without the spaces at its end, and then without the word there.
abbrev pub kill_word : Text → Text
kill_word l = drop_last_while not_whitespace (drop_last_while is_whitespace l)

pub kill_word-append : (l : Text) → (z : Text) × (l ≡ kill_word l ++ z)
kill_word-append l =
    let (z, e) = drop_last_while-append is_whitespace l in
    let (z', e') = drop_last_while-append not_whitespace (drop_last_while is_whitespace l) in
    (z' ++ z, e ∙ ap (λ t. t ++ z) e' ∙ append_assoc (kill_word l) z' z)

word_start-kill_word : (l r : Text) → word_start (l ++ r) (length l) ≡ some (length (kill_word l))
unfolding word_start
word_start-kill_word l r =
    let (z, e) = drop_last_while-append is_whitespace l in
    rw (skip_back-length is_whitespace l r, ◌>>=◌)
      (ap (λ t. skip_back not_whitespace t (length (drop_last_while is_whitespace l)))
          (ap (λ t. t ++ r) e ∙ append_assoc (drop_last_while is_whitespace l) z r)
        ∙ skip_back-length not_whitespace (drop_last_while is_whitespace l) (z ++ r))

module _ {ℓ} {A : Type ℓ} where
  slice_to-append : (xs ys : List A) → slice_to (xs ++ ys) (length xs) ≡ some xs
  unfolding slice_to
  slice_to-append xs ys = rw (
    take-length-append xs ys,
    le→leb (length xs) (length (xs ++ ys)) (omega (arith, length-append xs ys)),
  )

  slice_from-append : (xs ys : List A) → slice_from (xs ++ ys) (length xs) ≡ some ys
  unfolding slice_from
  slice_from-append xs ys = rw (
    drop-length-append xs ys,
    le→leb (length xs) (length (xs ++ ys)) (omega (arith, length-append xs ys)),
  )

  nil_of_length : (xs : List A) → length xs ≡ 0 → xs ≡ []
  nil_of_length [] h = refl
  nil_of_length (x ∷ xs) h = absurd (omega arith)

module _ (s : Shadow) where
  cut_word-At :
      (k z r : Text)
      → At s (k ++ z) r
      → (s' : Shadow) × (cut_word s (length k) ≡ some s') × At s' k r
  unfolding cut_word
  cut_word-At k z r a = elim (Bool-cases (length k == s.shadow_cursor)) [
    | inl same ↦
        let n : z ≡ [] = nil_of_length z (ground (arith, length-append k z)) in
        (
          s,
          rw same,
          record {
            input_is = a.input_is ∙ ap (λ t. (k ++ t) ++ r) n ∙ rw append-nil;
            cursor_is = sym ((==_iff (length k) s.shadow_cursor).0 same);
          },
        )
    | inr cut ↦ (
      record s {
        shadow_input = k ++ r;
        shadow_cursor = length k;
        last_action_was_suggestion = false;
      },
      rw (cut, before, behind, ◌>>=◌),
      record { input_is = refl; cursor_is = refl },
    )
  ]
    where
      before : slice_to s.shadow_input (length k) ≡ some k
      before = rw (a.input_is, append_assoc) (slice_to-append k (z ++ r))

      behind : slice_from s.shadow_input s.shadow_cursor ≡ some r
      behind = rw (a.input_is, a.cursor_is) (slice_from-append (k ++ z) r)

  -- Ctrl-W takes the word before the cursor, with the spaces behind it.
  pub kill_word_backward-At :
      (l r : Text)
      → At s l r
      → (s' : Shadow) × (kill_word_backward s ≡ some s') × At s' (kill_word l) r
  unfolding kill_word_backward drop_last_while
  kill_word_backward-At l r a = elim (Bool-cases (s.shadow_cursor == 0)) [
    | inl start ↦
        let n : l ≡ [] = nil_of_length l (sym a.cursor_is ∙ (==_iff s.shadow_cursor 0).0 start) in
        (
          s,
          rw start,
          record {
            input_is = a.input_is ∙ ap (λ t. t ++ r) (n ∙ sym (ap kill_word n));
            cursor_is = a.cursor_is ∙ ap length (n ∙ sym (ap kill_word n));
          },
        )
    | inr more ↦
        let (z, e) = kill_word-append l in
        let (s', cut, a') = cut_word-At (kill_word l) z r (record {
          input_is = a.input_is ∙ ap (λ t. t ++ r) e;
          cursor_is = a.cursor_is ∙ ap length e;
        }) in
        (s', rw (more, found, ◌>>=◌) cut, a')
  ]
    where
      found : word_start s.shadow_input s.shadow_cursor ≡ some (length (kill_word l))
      found = rw (a.input_is, a.cursor_is) (word_start-kill_word l r)
