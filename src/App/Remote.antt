-- ===== src/App/Remote.antt =====
-- The line editor behind the session, which the shadow buffer of crates/tiny-ssh-cli/src/app.rs
-- follows. It runs on the other side, so it is a parameter; what is said of it are the default
-- bindings that GNU readline documents, and that an interrupt gives up the line.
use tiny_ssh.Base.{
  ℕ, ◌≤◌, ◌≡◌, ◌≢◌, [], ◌∷◌, ◌++◌, Bytes, Bool, true, false, if◌then◌else◌, All, ◌||◌, ◌==◌,
}
use tiny_ssh.Utf8.{Text, IsScalar, encode_utf8}
use tiny_ssh.App.Editing.{Line, line, backspaced, moved_left, moved_right}

pub record Editor : Type 1 where
  pub State : Type 0
  -- No sequence or character is read in part.
  pub IsReady : State → Type 0
  -- The state behind bytes that come in.
  pub read : State → Bytes → State
  -- The line that is edited, around its cursor.
  pub shows : State → Line

-- A character that inserts itself.
abbrev pub IsPrintable : ℕ → Type 0
IsPrintable c = (0x20 ≤ c) × (c ≢ 0x7f) × IsScalar c

abbrev pub AllPrintable : Text → Type 0
AllPrintable [] = Unit
AllPrintable (c ∷ cs) = IsPrintable c × AllPrintable cs

-- The line without the character at its cursor.
abbrev pub deleted_from : Text → Line → Line
deleted_from [] a = a
deleted_from (c ∷ r) a = line a.before r

abbrev pub deleted : Line → Line
deleted a = deleted_from a.behind a

-- The introducer of a cursor key: SS3 in the mode of application cursor keys, and else CSI.
abbrev pub cursor_key : Bool → ℕ → Bytes
cursor_key app_cursor letter = 0x1b ∷ (if app_cursor then b'O' else b'[') ∷ letter ∷ []

-- White space of readline: a space or a tab.
abbrev pub is_blank : ℕ → Bool
is_blank c = c == 0x20 || c == 0x09

abbrev pub AllBlank : Text → Type 0
AllBlank = All (λ c. is_blank c ≡ true)

abbrev pub NoneBlank : Text → Type 0
NoneBlank = All (λ c. is_blank c ≡ false)

-- The text is empty, or a blank is its last character.
abbrev pub EndsBlank : Text → Type 0
EndsBlank [] = Unit
EndsBlank (c ∷ []) = is_blank c ≡ true
EndsBlank (c ∷ d ∷ ds) = EndsBlank (d ∷ ds)

-- The text `l`, a last word behind it, and the blanks at the end.
pub record LastWord (t l : Text) : Type 0 where
  pub word : Text
  pub gap : Text
  pub splits : t ≡ l ++ (word ++ gap)
  pub gap_blank : AllBlank gap
  pub word_whole : NoneBlank word
  pub before_word : EndsBlank l
  pub word_found : word ≡ [] → l ≡ []

module _ (ed : Editor) where
  -- The bytes make a ready editor show a line, and leave it ready.
  abbrev pub Becomes : ed.State → Bytes → Line → Type 0
  Becomes s bytes a = ed.IsReady (ed.read s bytes) × (ed.shows (ed.read s bytes) ≡ a)

pub record ReadlineLaws (ed : Editor) : Type 0 where
  pub read-append :
      (s : ed.State) (xs ys : Bytes) → ed.read s (xs ++ ys) ≡ ed.read (ed.read s xs) ys
  pub read_nil : (s : ed.State) → ed.read s [] ≡ s
  pub self_insert :
      (s : ed.State) (c : ℕ)
      → ed.IsReady s
      → IsPrintable c
      → Becomes ed s (encode_utf8 c) (line ((ed.shows s).before ++ c ∷ []) (ed.shows s).behind)
  pub beginning_of_line :
      (s : ed.State)
      → ed.IsReady s
      → Becomes ed s (0x01 ∷ []) (line [] ((ed.shows s).before ++ (ed.shows s).behind))
  pub end_of_line :
      (s : ed.State)
      → ed.IsReady s
      → Becomes ed s (0x05 ∷ []) (line ((ed.shows s).before ++ (ed.shows s).behind) [])
  pub kill_line :
      (s : ed.State) → ed.IsReady s → Becomes ed s (0x0b ∷ []) (line (ed.shows s).before [])
  pub unix_word_rubout :
      (s : ed.State) (l : Text)
      → ed.IsReady s
      → LastWord (ed.shows s).before l
      → Becomes ed s (0x17 ∷ []) (line l (ed.shows s).behind)
  pub unix_line_discard :
      (s : ed.State) → ed.IsReady s → Becomes ed s (0x15 ∷ []) (line [] (ed.shows s).behind)
  pub interrupt : (s : ed.State) → ed.IsReady s → Becomes ed s (0x03 ∷ []) (line [] [])
  pub clear_screen : (s : ed.State) → ed.IsReady s → Becomes ed s (0x0c ∷ []) (ed.shows s)
  pub accept_line : (s : ed.State) → ed.IsReady s → Becomes ed s (0x0d ∷ []) (line [] [])
  pub backward_delete_char :
      (s : ed.State) → ed.IsReady s → Becomes ed s (0x7f ∷ []) (backspaced (ed.shows s))
  pub delete_char :
      (s : ed.State)
      → ed.IsReady s
      → Becomes ed s (0x1b ∷ b'[' ∷ b'3' ∷ b'~' ∷ []) (deleted (ed.shows s))
  pub backward_char :
      (s : ed.State) (app_cursor : Bool)
      → ed.IsReady s
      → Becomes ed s (cursor_key app_cursor b'D') (moved_left (ed.shows s))
  pub forward_char :
      (s : ed.State) (app_cursor : Bool)
      → ed.IsReady s
      → Becomes ed s (cursor_key app_cursor b'C') (moved_right (ed.shows s))
  pub home_key :
      (s : ed.State) (app_cursor : Bool)
      → ed.IsReady s
      → Becomes ed s
          (cursor_key app_cursor b'H')
          (line [] ((ed.shows s).before ++ (ed.shows s).behind))
  pub end_key :
      (s : ed.State) (app_cursor : Bool)
      → ed.IsReady s
      → Becomes ed s
          (cursor_key app_cursor b'F')
          (line ((ed.shows s).before ++ (ed.shows s).behind) [])
