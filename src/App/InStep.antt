-- ===== src/App/InStep.antt =====
-- Keys that the remote line editor and the shadow buffer of crates/tiny-ssh-cli/src/app.rs take
-- alike.
use tiny_ssh.Base.{
  ℕ, ◌+◌, ◌≤◌, ◌≡◌, ◌≢◌, ◌⊎◌, ◌↔◌, refl, sym, ◌∙◌, ap, Bool, true, false, [], ◌∷◌, arith, inl, inr,
  Bytes, length,
}
use tiny_ssh.Keys.{
  KeyCode, char, enter, backspace, home, end, delete, KeyModifiers, KeyEvent, TermMode,
  to_ascii_lowercase, ctrl_byte, encode_char, encode_code, encode, arrow,
}
use tiny_ssh.Utf8.{Text}
use tiny_ssh.Keys.Char.{encode_char-utf8}
use tiny_ssh.App.Editing.{Line, line, edited, ctrl_edited}
use tiny_ssh.App.Rubout.{AllPlain, rubbed_out, rubbed_out-LastWord, kill_word-rubbed_out}
use tiny_ssh.App.Remote.{
  Editor, ReadlineLaws, IsPrintable, deleted, deleted_from, cursor_key, Becomes,
}

-- The letters under Ctrl that edit the line.
abbrev pub IsEditLetter : ℕ → Type 0
IsEditLetter l =
    (l ≡ b'a') ⊎ (l ≡ b'e') ⊎ (l ≡ b'k') ⊎ (l ≡ b'w') ⊎ (l ≡ b'c') ⊎ (l ≡ b'l') ⊎ (l ≡ b'u')

-- The keys whose effect on a line editor is known, under Ctrl or not, and Alt or not.
abbrev pub IsEditKey : KeyCode → Bool → Bool → Type 0
IsEditKey (char c) true false = IsEditLetter (to_ascii_lowercase c)
IsEditKey (char c) false false = IsPrintable c
IsEditKey (char c) ctrl true = ⊥
IsEditKey backspace ctrl alt = Unit
IsEditKey enter ctrl alt = Unit
IsEditKey KeyCode.left ctrl alt = Unit
IsEditKey KeyCode.right ctrl alt = Unit
IsEditKey home ctrl alt = Unit
IsEditKey end ctrl alt = Unit
IsEditKey delete ctrl alt = Unit
IsEditKey _ ctrl alt = ⊥

-- Ctrl-U and Delete are taken alike only at the end of the line.
abbrev pub IsAlike : KeyCode → Bool → Line → Type 0
IsAlike (char c) true a = to_ascii_lowercase c ≡ b'u' → a.behind ≡ []
IsAlike delete ctrl a = a.behind ≡ []
IsAlike _ ctrl a = Unit

-- Ctrl-W meets no white space before the cursor but spaces and tabs.
abbrev pub IsPlainKey : KeyCode → Bool → Line → Type 0
IsPlainKey (char c) true a = to_ascii_lowercase c ≡ b'w' → AllPlain a.before
IsPlainKey _ ctrl a = Unit

encode_char-control :
    (c n : ℕ) (mods : KeyModifiers)
    → to_ascii_lowercase c ≡ 96 + n
    → 1 ≤ n
    → n ≤ 26
    → mods.control ≡ true
    → mods.alt ≡ false
    → encode_char c mods ≡ n ∷ []
unfolding encode_char ctrl_byte to_ascii_lowercase
encode_char-control c n mods e lo hi k a = ground arith

arrow-cursor_key :
    (letter : ℕ) (app_cursor : Bool) → arrow letter app_cursor ≡ cursor_key app_cursor letter
unfolding arrow
arrow-cursor_key letter true = refl
arrow-cursor_key letter false = refl

cons-ne : (c : ℕ) (r : Text) → r ≢ c ∷ r
cons-ne c r q = omega (arith, ap length q)

deleted_iff : (a : Line) → (deleted a ≡ a) ↔ (a.behind ≡ [])
deleted_iff a = by_behind a.behind refl
  where
    by_behind : (r : Text) → a.behind ≡ r → (deleted_from r a ≡ a) ↔ (r ≡ [])
    by_behind [] e = (λ q. refl, λ q. refl)
    by_behind (c ∷ r) e = (λ q. absurd (cons-ne c r (ap (λ (l : Line). l.behind) q ∙ e)), λ q. cc)

module _ (ed : Editor) where
  -- What a ready editor makes of bytes is the line `b` exactly if `p` holds.
  abbrev pub IsTaken : ed.State → Bytes → Line → Type 0 → Type 0
  IsTaken s bytes b p = ed.IsReady (ed.read s bytes) × ((ed.shows (ed.read s bytes) ≡ b) ↔ p)

module _ (ed : Editor) (laws : ReadlineLaws ed) where
  always :
      (s : ed.State) (bytes : Bytes) (b : Line) → Becomes ed s bytes b → IsTaken ed s bytes b Unit
  always s bytes b (ready, shows) = (ready, ((λ q. tt), λ q. shows))

  module _ (s : ed.State) (ready : ed.IsReady s) (mods : KeyModifiers) where
    -- The remote editor behind a letter under Ctrl.
    letter :
        (c n : ℕ) (a : Line)
        → to_ascii_lowercase c ≡ 96 + n
        → 1 ≤ n
        → n ≤ 26
        → mods.control ≡ true
        → mods.alt ≡ false
        → Becomes ed s (n ∷ []) a
        → Becomes ed s (encode_char c mods) a
    letter c n a e lo hi k m law = rw (encode_char-control c n mods e lo hi k m) law

    -- A letter other than u.
    same :
        (c l n : ℕ) (a : Line)
        → to_ascii_lowercase c ≡ 96 + n
        → l ≡ 96 + n
        → 1 ≤ n
        → n ≤ 26
        → l ≢ b'u'
        → mods.control ≡ true
        → mods.alt ≡ false
        → Becomes ed s (n ∷ []) (ctrl_edited l a)
        → IsTaken ed s
            (encode_char c mods)
            (ctrl_edited (to_ascii_lowercase c) a)
            (to_ascii_lowercase c ≡ b'u' → a.behind ≡ [])
    same c l n a e is_l lo hi u k m law =
        let (ready', shows) = letter c n _ e lo hi k m law in
        (
          ready',
          (
            (λ q v. absurd (u (is_l ∙ sym e ∙ v))),
            λ q. shows ∙ ap (λ x. ctrl_edited x a) (is_l ∙ sym e),
          ),
        )

    rubbed : AllPlain (ed.shows s).before → Becomes ed s (0x17 ∷ []) (ctrl_edited b'w' (ed.shows s))
    unfolding ctrl_edited
    rubbed h =
        let (ready', shows) =
          laws.unix_word_rubout s (rubbed_out (ed.shows s).before) ready
            (rubbed_out-LastWord (ed.shows s).before) in
        (
          ready',
          shows
              ∙ ap (λ l. line l (ed.shows s).behind)
                  (sym (kill_word-rubbed_out (ed.shows s).before h)),
        )

    letter_iff :
        (c : ℕ)
        → IsEditLetter (to_ascii_lowercase c)
        → mods.control ≡ true
        → mods.alt ≡ false
        → (to_ascii_lowercase c ≡ b'w' → AllPlain (ed.shows s).before)
        → IsTaken ed s
            (encode_char c mods)
            (ctrl_edited (to_ascii_lowercase c) (ed.shows s))
            (to_ascii_lowercase c ≡ b'u' → (ed.shows s).behind ≡ [])
    unfolding ctrl_edited
    letter_iff c (inl e) k m plain =
        same c b'a' 1 (ed.shows s) e refl (omega arith) (omega arith) (λ v. omega arith) k m
          (laws.beginning_of_line s ready)
    letter_iff c (inr (inl e)) k m plain =
        same c b'e' 5 (ed.shows s) e refl (omega arith) (omega arith) (λ v. omega arith) k m
          (laws.end_of_line s ready)
    letter_iff c (inr (inr (inl e))) k m plain =
        same c b'k' 11 (ed.shows s) e refl (omega arith) (omega arith) (λ v. omega arith) k m
          (laws.kill_line s ready)
    letter_iff c (inr (inr (inr (inl e)))) k m plain =
        same c b'w' 23 (ed.shows s) e refl (omega arith) (omega arith) (λ v. omega arith) k m
          (rubbed (plain e))
    letter_iff c (inr (inr (inr (inr (inl e))))) k m plain =
        same c b'c' 3 (ed.shows s) e refl (omega arith) (omega arith) (λ v. omega arith) k m
          (laws.interrupt s ready)
    letter_iff c (inr (inr (inr (inr (inr (inl e)))))) k m plain =
        same c b'l' 12 (ed.shows s) e refl (omega arith) (omega arith) (λ v. omega arith) k m
          (laws.clear_screen s ready)
    letter_iff c (inr (inr (inr (inr (inr (inr e)))))) k m plain =
        let (ready', read) =
          letter c 21 _ e (omega arith) (omega arith) k m (laws.unix_line_discard s ready) in
        let shadow : ctrl_edited (to_ascii_lowercase c) (ed.shows s) ≡ line [] [] =
          ap (λ x. ctrl_edited x (ed.shows s)) e in
        (
          ready',
          (
            (λ q v. ap (λ (l : Line). l.behind) (sym read ∙ q ∙ shadow)),
            λ q. read ∙ ap (line []) (q e) ∙ sym shadow,
          ),
        )

    code_iff :
        (code : KeyCode) (app_cursor ctrl alt : Bool)
        → mods.control ≡ ctrl
        → mods.alt ≡ alt
        → IsEditKey code ctrl alt
        → IsPlainKey code ctrl (ed.shows s)
        → IsTaken ed s
            (encode_code code mods app_cursor)
            (edited ctrl code (ed.shows s))
            (IsAlike code ctrl (ed.shows s))
    unfolding encode_code edited
    code_iff (char c) app_cursor true false k m h plain = letter_iff c h k m plain
    code_iff (char c) app_cursor false false k m h plain =
        always s _ _ (rw (encode_char-utf8 c mods k, m) (laws.self_insert s c ready h))
    code_iff (char c) app_cursor true true k m h plain = elim h [ ]
    code_iff (char c) app_cursor false true k m h plain = elim h [ ]
    code_iff backspace app_cursor ctrl alt k m h plain =
        always s _ _ (laws.backward_delete_char s ready)
    code_iff enter app_cursor ctrl alt k m h plain = always s _ _ (laws.accept_line s ready)
    code_iff KeyCode.left app_cursor ctrl alt k m h plain =
        always s _ _ (rw (arrow-cursor_key b'D' app_cursor) (laws.backward_char s app_cursor ready))
    code_iff KeyCode.right app_cursor ctrl alt k m h plain =
        always s _ _ (rw (arrow-cursor_key b'C' app_cursor) (laws.forward_char s app_cursor ready))
    code_iff home app_cursor ctrl alt k m h plain =
        always s _ _ (rw (arrow-cursor_key b'H' app_cursor) (laws.home_key s app_cursor ready))
    code_iff end app_cursor ctrl alt k m h plain =
        always s _ _ (rw (arrow-cursor_key b'F' app_cursor) (laws.end_key s app_cursor ready))
    code_iff delete app_cursor ctrl alt k m h plain =
        let (ready', shows) = laws.delete_char s ready in
        (ready', rw shows (deleted_iff (ed.shows s)))
    code_iff _ app_cursor ctrl alt k m h plain = elim h [ ]

  -- After a key that edits the line, a ready remote editor is ready again, and shows what a line
  -- editor makes of its line, except if the key is Ctrl-U or Delete and there is text behind the
  -- cursor.
  pub key_iff :
      (s : ed.State) (key : KeyEvent) (mode : TermMode)
      → ed.IsReady s
      → IsEditKey key.code key.modifiers.control key.modifiers.alt
      → IsPlainKey key.code key.modifiers.control (ed.shows s)
      → IsTaken ed s
          (encode key mode)
          (edited key.modifiers.control key.code (ed.shows s))
          (IsAlike key.code key.modifiers.control (ed.shows s))
  unfolding encode
  key_iff s key mode ready h plain =
      code_iff s ready key.modifiers key.code mode.app_cursor key.modifiers.control
        key.modifiers.alt refl refl h plain
