-- ===== src/App/Rubout.antt =====
-- Ctrl-W of readline: the text before the last word. It is what `kill_word_backward` of
-- crates/tiny-ssh-cli/src/app.rs leaves of a text with no other white space than spaces and tabs.
use tiny_ssh.Base.{
  ℕ, ◌≤◌, ◌≡◌, ◌⊎◌, refl, sym, ◌∙◌, ap, subst, Bool, true, false, not, [], ◌∷◌, ◌++◌, append-nil,
  append_assoc, arith, All, if◌then◌else◌, Bool-cases, inl, inr,
}
use tiny_ssh.Utf8.{Text}
use tiny_ssh.Terminal.{is_whitespace, keep_before, drop_last_while}
use tiny_ssh.App.Edit.{not_whitespace}
use tiny_ssh.App.Word.{kill_word}
use tiny_ssh.App.Remote.{is_blank, NoneBlank, EndsBlank, LastWord}

-- White space that readline takes for a part of a word.
abbrev pub IsOddSpace : ℕ → Type 0
IsOddSpace c =
    ((0x0a ≤ c) × (c ≤ 0x0d))
    ⊎ (c ≡ 0x85)
    ⊎ (c ≡ 0xa0)
    ⊎ (c ≡ 0x1680)
    ⊎ ((0x2000 ≤ c) × (c ≤ 0x200a))
    ⊎ (c ≡ 0x2028)
    ⊎ (c ≡ 0x2029)
    ⊎ (c ≡ 0x202f)
    ⊎ (c ≡ 0x205f)
    ⊎ (c ≡ 0x3000)

abbrev pub AllPlain : Text → Type 0
AllPlain = All (λ c. ¬ IsOddSpace c)

abbrev pub rubbed_out : Text → Text
rubbed_out t = drop_last_while (λ c. not (is_blank c)) (drop_last_while is_blank t)

-- The last character, if any, has not the property.
abbrev EndsWithout : (ℕ → Bool) → Text → Type 0
EndsWithout p [] = Unit
EndsWithout p (c ∷ []) = p c ≡ false
EndsWithout p (c ∷ d ∷ ds) = EndsWithout p (d ∷ ds)

-- What is dropped has the property, and what stays does not end with it.
record Dropped (p : ℕ → Bool) (t l : Text) : Type 0 where
  gone : Text
  splits : t ≡ l ++ gone
  all_gone : All (λ c. p c ≡ true) gone
  ends : EndsWithout p l

keep_before-Dropped :
    (p : ℕ → Bool) (c : ℕ) (cs l : Text) → Dropped p cs l → Dropped p (c ∷ cs) (keep_before p c l)
unfolding keep_before
keep_before-Dropped p c cs [] d = elim (Bool-cases (p c)) [
  | inl t ↦ rw t (record {
    gone = c ∷ d.gone;
    splits = ap (c ∷◌) d.splits;
    all_gone = (t, d.all_gone);
    ends = tt;
  })
  | inr f ↦
      rw f (record { gone = d.gone; splits = ap (c ∷◌) d.splits; all_gone = d.all_gone; ends = f })
]
keep_before-Dropped p c cs (x ∷ l) d = record {
  gone = d.gone;
  splits = ap (c ∷◌) d.splits;
  all_gone = d.all_gone;
  ends = d.ends;
}

drop_last_while-Dropped : (p : ℕ → Bool) (t : Text) → Dropped p t (drop_last_while p t)
unfolding drop_last_while
drop_last_while-Dropped p [] = record { gone = []; splits = refl; all_gone = tt; ends = tt }
drop_last_while-Dropped p (c ∷ cs) =
    keep_before-Dropped p c cs (drop_last_while p cs) (drop_last_while-Dropped p cs)

drop_last_while-All : (p : ℕ → Bool) (z : Text) → All (λ c. p c ≡ true) z → drop_last_while p z ≡ []
unfolding drop_last_while keep_before
drop_last_while-All p [] h = refl
drop_last_while-All p (c ∷ z) (h, hs) = rw (drop_last_while-All p z hs, keep_before, h) refl

drop_last_while-kept : (p : ℕ → Bool) (l : Text) → EndsWithout p l → drop_last_while p l ≡ l
unfolding drop_last_while keep_before
drop_last_while-kept p [] e = refl
drop_last_while-kept p (c ∷ []) e = rw e refl
drop_last_while-kept p (c ∷ d ∷ ds) e = rw (drop_last_while-kept p (d ∷ ds) e) refl

drop_last_while-behind :
    (p : ℕ → Bool) (l z : Text)
    → All (λ c. p c ≡ true) z
    → drop_last_while p (l ++ z) ≡ drop_last_while p l
unfolding drop_last_while
drop_last_while-behind p [] z h = drop_last_while-All p z h
drop_last_while-behind p (c ∷ l) z h = ap (keep_before p c) (drop_last_while-behind p l z h)

-- A text that ends neither in a blank nor in another character is empty.
ends_both : (l : Text) → EndsWithout is_blank l → EndsBlank l → l ≡ []
ends_both [] e b = refl
ends_both (c ∷ []) e b = cc
ends_both (c ∷ d ∷ ds) e b = let h = ends_both (d ∷ ds) e b in cc

none_of : (w : Text) → All (λ c. not (is_blank c) ≡ true) w → NoneBlank w
none_of [] h = tt
none_of (c ∷ w) (h, hs) = (ground arith, none_of w hs)

All-of : (w : Text) → NoneBlank w → All (λ c. not (is_blank c) ≡ true) w
All-of [] h = tt
All-of (c ∷ w) (h, hs) = (ground arith, All-of w hs)

ends_of : (l : Text) → EndsWithout (λ c. not (is_blank c)) l → EndsBlank l
ends_of [] e = tt
ends_of (c ∷ []) e = ground arith
ends_of (c ∷ d ∷ ds) e = ends_of (d ∷ ds) e

to_ends : (l : Text) → EndsBlank l → EndsWithout (λ c. not (is_blank c)) l
to_ends [] e = tt
to_ends (c ∷ []) e = ground arith
to_ends (c ∷ d ∷ ds) e = to_ends (d ∷ ds) e

pub rubbed_out-LastWord : (t : Text) → LastWord t (rubbed_out t)
rubbed_out-LastWord t =
    let d = drop_last_while-Dropped is_blank t in
    let w = drop_last_while-Dropped (λ c. not (is_blank c)) (drop_last_while is_blank t) in
    record {
      word = w.gone;
      gap = d.gone;
      splits =
          d.splits ∙ ap (λ l. l ++ d.gone) w.splits ∙ append_assoc (rubbed_out t) w.gone d.gone;
      gap_blank = d.all_gone;
      word_whole = none_of w.gone w.all_gone;
      before_word = ends_of (rubbed_out t) w.ends;
      word_found = λ n.
          let same : drop_last_while is_blank t ≡ rubbed_out t =
            w.splits ∙ ap (rubbed_out t ++◌) n ∙ append-nil (rubbed_out t) in
          ends_both (rubbed_out t) (subst (EndsWithout is_blank) same d.ends)
            (ends_of (rubbed_out t) w.ends);
    }

-- The end of a text that does not end in a blank.
word_ends : (l w : Text) → NoneBlank w → (w ≡ [] → l ≡ []) → EndsWithout is_blank (l ++ w)
word_ends [] w h n = whole w h
  where
    whole : (v : Text) → NoneBlank v → EndsWithout is_blank v
    whole [] k = tt
    whole (c ∷ []) k = k.0
    whole (c ∷ d ∷ ds) k = whole (d ∷ ds) k.1
word_ends (c ∷ l) [] h n = absurd (let e = n refl in cc)
word_ends (c ∷ []) (d ∷ w) h n = word_ends [] (d ∷ w) h (λ e. refl)
word_ends (c ∷ b ∷ l) (d ∷ w) h n = word_ends (b ∷ l) (d ∷ w) h (λ e. cc)

-- The text before the last word is found by dropping.
pub LastWord-rubbed_out : (t l : Text) → LastWord t l → rubbed_out t ≡ l
LastWord-rubbed_out t l p =
    ap rubbed_out p.splits
    ∙ ap (λ x. drop_last_while (λ c. not (is_blank c)) (drop_last_while is_blank x))
        (sym (append_assoc l p.word p.gap))
    ∙ ap (drop_last_while (λ c. not (is_blank c))) (
        drop_last_while-behind is_blank (l ++ p.word) p.gap p.gap_blank
        ∙ drop_last_while-kept is_blank (l ++ p.word)
            (word_ends l p.word p.word_whole p.word_found))
    ∙ drop_last_while-behind (λ c. not (is_blank c)) l p.word (All-of p.word p.word_whole)
    ∙ drop_last_while-kept (λ c. not (is_blank c)) l (to_ends l p.before_word)

plain_blank : (c : ℕ) → (¬ IsOddSpace c) → is_whitespace c ≡ is_blank c
unfolding is_whitespace
plain_blank c n = ground arith

keep_before-same :
    (p q : ℕ → Bool) (c : ℕ) (l : Text) → p c ≡ q c → keep_before p c l ≡ keep_before q c l
unfolding keep_before
keep_before-same p q c [] e = ap (λ b. if b then [] else c ∷ []) e
keep_before-same p q c (d ∷ l) e = refl

drop_last_while-same :
    (p q : ℕ → Bool) (t : Text)
    → ((c : ℕ) → (¬ IsOddSpace c) → p c ≡ q c)
    → AllPlain t
    → drop_last_while p t ≡ drop_last_while q t
unfolding drop_last_while
drop_last_while-same p q [] same h = refl
drop_last_while-same p q (c ∷ t) same (h, hs) =
    keep_before-same p q c (drop_last_while p t) (same c h)
    ∙ ap (keep_before q c) (drop_last_while-same p q t same hs)

plain_before : (l z : Text) → AllPlain (l ++ z) → AllPlain l
plain_before [] z h = tt
plain_before (c ∷ l) z (h, hs) = (h, plain_before l z hs)

-- `kill_word_backward` and readline agree on plain text.
pub kill_word-rubbed_out : (t : Text) → AllPlain t → kill_word t ≡ rubbed_out t
unfolding not_whitespace
kill_word-rubbed_out t h =
    let d = drop_last_while-Dropped is_blank t in
    ap (drop_last_while not_whitespace)
      (drop_last_while-same is_whitespace is_blank t plain_blank h)
    ∙ drop_last_while-same not_whitespace (λ c. not (is_blank c)) (drop_last_while is_blank t)
        (λ c n. ap (λ b. if b then false else true) (plain_blank c n) ∙ flipped (is_blank c))
        (plain_before (drop_last_while is_blank t) d.gone (subst AllPlain d.splits h))
  where
    flipped : (b : Bool) → (if b then false else true) ≡ not b
    flipped true = refl
    flipped false = refl
