-- ===== src/App/Line.antt =====
-- The edits of the shadow buffer on the text before and behind the cursor.
use tiny_ssh.Base.{
  ℕ, ◌+◌, ◌-◌, ◌≡◌, refl, ◌∙◌, false, none, some, [], ◌∷◌, ◌++◌, append-nil, append_assoc, ◌>>=◌,
  length, length-append, arith, lt→ltb, le→leb,
}
use tiny_ssh.Utf8.{Text, len_utf8, len, split_at}
use tiny_ssh.Utf8.Boundary.{split_at-len, len-append}
use tiny_ssh.App.{Shadow}
use tiny_ssh.App.Edit.{
  char_indices, nth, char_to_byte, insert, remove, truncate, insert_char, backspace_char,
  kill_to_end, remove_first,
}

-- The cursor stands between `l` and `r`.
pub record At (s : Shadow) (l r : Text) : Type 0 where
  pub input_is : s.shadow_input ≡ l ++ r
  pub cursor_is : s.shadow_cursor ≡ length l

nth-char_indices :
    (l : Text) (c : ℕ) (r : Text) (offset : ℕ)
    → nth (length l) (char_indices offset (l ++ c ∷ r)) ≡ some (offset + len l, c)
unfolding nth char_indices len
nth-char_indices [] c r offset = ground arith
nth-char_indices (x ∷ l) c r offset = nth-char_indices l c r (offset + len_utf8 x) ∙ ground arith

nth-char_indices_end : (l : Text) (offset : ℕ) → nth (length l) (char_indices offset l) ≡ none
unfolding nth char_indices
nth-char_indices_end [] offset = refl
nth-char_indices_end (x ∷ l) offset = nth-char_indices_end l (offset + len_utf8 x)

-- The byte index of a character position is the length in bytes of what stands before it.
pub char_to_byte-len : (l r : Text) → char_to_byte (l ++ r) (length l) ≡ len l
unfolding char_to_byte
char_to_byte-len l [] = rw append-nil (rw (nth-char_indices_end l 0, char_to_byte))
char_to_byte-len l (c ∷ r) = rw (nth-char_indices l c r 0, char_to_byte) (omega arith)

split_at-char_to_byte :
    (l r : Text) → split_at (l ++ r) (char_to_byte (l ++ r) (length l)) ≡ some (l, r)
split_at-char_to_byte l r = rw (char_to_byte-len l r) (split_at-len l r)

module _ (s : Shadow) where
  pub insert_char-At :
      (c : ℕ) (l r : Text)
      → At s l r
      → (s' : Shadow) × (insert_char c s ≡ some s') × At s' (l ++ c ∷ []) r
  unfolding insert_char insert
  insert_char-At c l r a = (
    record s {
      shadow_input = l ++ c ∷ r;
      shadow_cursor = s.shadow_cursor + 1;
      last_action_was_suggestion = false;
    },
    rw (a.input_is, a.cursor_is, split_at-char_to_byte l r, ◌>>=◌),
    record {
      input_is = rw append_assoc;
      cursor_is = omega (arith, length-append l (c ∷ []), a.cursor_is);
    },
  )

  pub backspace_char-At :
      (l : Text) (c : ℕ) (r : Text)
      → At s (l ++ c ∷ []) r
      → (s' : Shadow) × (backspace_char s ≡ some s') × At s' l r
  unfolding backspace_char remove remove_first
  backspace_char-At l c r a = (
    record s {
      shadow_input = l ++ r;
      shadow_cursor = s.shadow_cursor - 1;
      last_action_was_suggestion = false;
    },
    rw (
      a.input_is,
      a.cursor_is,
      length-append l (c ∷ []),
      append_assoc,
      (let e : length l + 1 - 1 ≡ length l = omega arith in e),
      split_at-char_to_byte l (c ∷ r),
      ◌>>=◌,
      lt→ltb 0 (length l + 1) (omega arith),
    ),
    record { input_is = refl; cursor_is = omega (arith, length-append l (c ∷ []), a.cursor_is) },
  )

  -- Backspace at the start of the line changes nothing.
  pub backspace_char_start : (r : Text) → At s [] r → backspace_char s ≡ some s
  unfolding backspace_char
  backspace_char_start r a = rw (a.cursor_is)

  pub kill_to_end-At :
      (l r : Text) → At s l r → (s' : Shadow) × (kill_to_end s ≡ some s') × At s' l []
  unfolding kill_to_end truncate
  kill_to_end-At l r a = (
    record s { shadow_input = l; last_action_was_suggestion = false },
    rw (
      a.input_is,
      a.cursor_is,
      split_at-char_to_byte l r,
      ◌>>=◌,
      char_to_byte-len l r,
      len-append l r,
      le→leb (len l) (len l + len r) (omega arith),
    ),
    record { input_is = rw append-nil; cursor_is = a.cursor_is },
  )
