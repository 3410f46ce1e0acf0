-- ===== src/App/Edit.antt =====
-- The edits of the shadow buffer in crates/tiny-ssh-cli/src/app.rs. The operations of `String` at a
-- byte index panic off a character boundary, and indices of `chars` panic out of range.
use tiny_ssh.Base.{
  ℕ, zero, suc, ◌+◌, ◌-◌, Bool, true, false, Option, none, some, List, [], ◌∷◌, ◌++◌, ◌>>=◌, ltb,
  leb, ◌==◌, if◌then◌else◌, length, take, drop,
}
use tiny_ssh.Utf8.{Text, len_utf8, len, split_at}
use tiny_ssh.Terminal.{is_whitespace}
use tiny_ssh.App.{Shadow}

-- `str::char_indices`: each character with its byte offset.
unfoldable pub char_indices : ℕ → Text → List (ℕ × ℕ)
char_indices offset [] = []
char_indices offset (c ∷ cs) = (offset, c) ∷ char_indices (offset + len_utf8 c) cs

module _ {ℓ} {A : Type ℓ} where
  -- `Iterator::nth`, and `slice::get`.
  unfoldable pub nth : ℕ → List A → Option A
  nth n [] = none
  nth zero (x ∷ xs) = some x
  nth (suc n) (x ∷ xs) = nth n xs

  -- `&chars[..n]` and `&chars[n..]`.
  unfoldable pub slice_to : List A → ℕ → Option (List A)
  slice_to xs n = if leb n (length xs) then some (take n xs) else none

  unfoldable pub slice_from : List A → ℕ → Option (List A)
  slice_from xs n = if leb n (length xs) then some (drop n xs) else none

unfoldable pub char_to_byte : Text → ℕ → ℕ
char_to_byte input char_pos = elim (nth char_pos (char_indices 0 input)) [
  | some (b, c) ↦ b
  | none ↦ len input
]

-- `String::insert`.
unfoldable pub insert : Text → ℕ → ℕ → Option Text
insert s idx ch = do (l, r) ← split_at s idx; some (l ++ ch ∷ r)

-- `String::remove`: a panic at the end too.
unfoldable pub remove_first : Text → Text → Option Text
remove_first l [] = none
remove_first l (c ∷ r) = some (l ++ r)

unfoldable pub remove : Text → ℕ → Option Text
remove s idx = do (l, r) ← split_at s idx; remove_first l r

-- `String::truncate`: no effect past the end.
unfoldable pub truncate : Text → ℕ → Option Text
truncate s new_len =
    if leb new_len (len s) then (do (l, r) ← split_at s new_len; some l) else some s

unfoldable pub insert_char : ℕ → Shadow → Option Shadow
insert_char c s = do
  input ← insert s.shadow_input (char_to_byte s.shadow_input s.shadow_cursor) c
  some (record s {
    shadow_input = input;
    shadow_cursor = s.shadow_cursor + 1;
    last_action_was_suggestion = false;
  })

-- `KeyCode::Backspace`, before the refresh.
unfoldable pub backspace_char : Shadow → Option Shadow
backspace_char s =
    if ltb 0 s.shadow_cursor
    then (do
      input ← remove s.shadow_input (char_to_byte s.shadow_input (s.shadow_cursor - 1))
      some (record s {
        shadow_input = input;
        shadow_cursor = s.shadow_cursor - 1;
        last_action_was_suggestion = false;
      }))
    else some s

-- Ctrl-K.
unfoldable pub kill_to_end : Shadow → Option Shadow
kill_to_end s = do
  input ← truncate s.shadow_input (char_to_byte s.shadow_input s.shadow_cursor)
  some (record s { shadow_input = input; last_action_was_suggestion = false })

-- `while i > 0 && test(chars[i - 1]) { i -= 1 }`.
unfoldable pub skip_back : (ℕ → Bool) → Text → ℕ → Option ℕ
skip_back test chars zero = some 0
skip_back test chars (suc i) = do
  c ← nth i chars
  if test c then skip_back test chars i else some (suc i)

unfoldable pub not_whitespace : ℕ → Bool
not_whitespace c = if is_whitespace c then false else true

-- The two loops of `kill_word_backward`.
unfoldable pub word_start : Text → ℕ → Option ℕ
word_start chars i = do j ← skip_back is_whitespace chars i; skip_back not_whitespace chars j

unfoldable pub cut_word : Shadow → ℕ → Option Shadow
cut_word s i = if i == s.shadow_cursor then some s else (do
  l ← slice_to s.shadow_input i
  r ← slice_from s.shadow_input s.shadow_cursor
  some (record s { shadow_input = l ++ r; shadow_cursor = i; last_action_was_suggestion = false }))

unfoldable pub kill_word_backward : Shadow → Option Shadow
kill_word_backward s =
    if s.shadow_cursor == 0
    then some s
    else (do i ← word_start s.shadow_input s.shadow_cursor; cut_word s i)
