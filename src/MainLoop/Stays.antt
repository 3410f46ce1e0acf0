-- ===== src/MainLoop/Stays.antt =====
-- Keys that do not end the program: `on_key` of crates/tiny-ssh-cli/src/app.rs answers `quit` to
-- Ctrl-Q only.
use tiny_ssh.Base.{
  ℕ, ◌≡◌, ◌≢◌, refl, subst, Bool, true, false, ◌&&◌, ◌||◌, Option, none, some, [], ◌∷◌, ◌>>=◌,
  Bytes, arith, Bool-cases, Option-cases, inl, inr,
}
use tiny_ssh.Utf8.{Text, into_bytes}
use tiny_ssh.Keys.{KeyCode, char, KeyEvent, encode, to_ascii_lowercase}
use tiny_ssh.History.Database.{Sqlite}
use tiny_ssh.Terminal
use tiny_ssh.Terminal.{Vt}
use tiny_ssh.App
use tiny_ssh.App.{App, Action, quit}
use tiny_ssh.App.Input.{on_key, accept, forward, accepted, is_char}
use tiny_ssh.App.InStep.{IsEditKey, IsEditLetter}

letter_not_q : (c : ℕ) → IsEditLetter (to_ascii_lowercase c) → c ≢ b'q'
unfolding to_ascii_lowercase
letter_not_q c h e = ground arith

code_not_q :
    (code : KeyCode) (ctrl alt : Bool)
    → IsEditKey code ctrl alt
    → (ctrl && is_char code b'q') ≡ false
code_not_q (char c) true false h = let n = letter_not_q c h in ground arith
code_not_q (char c) false false h = refl
code_not_q (char c) true true h = elim h [ ]
code_not_q (char c) false true h = elim h [ ]
code_not_q _ true alt h = refl
code_not_q _ false alt h = refl

module _ (vt : Vt) (db : Sqlite) where
  abbrev pub Stays : Option (App vt × db.Conn × Action) → Type 0
  Stays none = Unit
  Stays (some r) = r.2 ≢ quit

  accept-Stays : (app : App vt) (conn : db.Conn) (rest : Text) → Stays (accept vt db app conn rest)
  unfolding accept
  accept-Stays app conn rest = by_refresh _
    where
      by_refresh :
          (o : Option App.Shadow)
          → Stays (o >>= λ s. some (record app { shadow = s }, conn, App.send (into_bytes rest)))
      by_refresh none = tt
      by_refresh (some s) = λ q. cc

  forward-Stays :
      (app : App vt) (conn : db.Conn) (clock : Option ℕ) (k : KeyEvent)
      → Stays (forward vt db app conn clock k)
  unfolding forward
  forward-Stays app conn clock k = by_bytes (encode k (Terminal.mode vt app.terminal)) _
    where
      by_bytes :
          (bytes : Bytes) (o : Option (App.Shadow × db.Conn))
          → Stays (elim bytes [
            | [] ↦ some (app, conn, App.nothing)
            | b ∷ bs ↦ o >>= λ r. some (record app { shadow = r.0 }, r.1, App.send (b ∷ bs))
          ])
      by_bytes [] o = λ q. cc
      by_bytes (b ∷ bs) none = tt
      by_bytes (b ∷ bs) (some r) = λ q. cc

  pub on_key-Stays :
      (app : App vt) (conn : db.Conn) (clock : Option ℕ) (k : KeyEvent)
      → (k.modifiers.control && is_char k.code b'q') ≡ false
      → Stays (on_key vt db app conn clock k)
  unfolding on_key
  on_key-Stays app conn clock k n =
      rw n
        (elim (Bool-cases (
          (k.modifiers.control && k.modifiers.shift)
          && (is_char k.code b'm' || is_char k.code b'M'))) [
            | inl t ↦ rw t (λ q. cc)
            | inr t ↦
                rw t
                  (elim (Bool-cases (
                    (k.modifiers.control && k.modifiers.shift)
                    && (is_char k.code b'c' || is_char k.code b'C'))) [
                      | inl t ↦ rw t (λ q. cc)
                      | inr t ↦ rw t (elim (Option-cases (accepted k app.shadow)) [
                        | inl e ↦ rw e (forward-Stays app conn clock k)
                        | inr (rest, g) ↦ rw g (accept-Stays app conn rest)
                      ])
                    ])
          ])

  -- A key that edits the line does not end the program.
  pub edit_key-stays :
      (app app' : App vt) (conn conn' : db.Conn) (clock : Option ℕ) (k : KeyEvent) (a : Action)
      → IsEditKey k.code k.modifiers.control k.modifiers.alt
      → on_key vt db app conn clock k ≡ some (app', conn', a)
      → a ≢ quit
  edit_key-stays app app' conn conn' clock k a h e =
      subst Stays e
        (on_key-Stays app conn clock k (code_not_q k.code k.modifiers.control k.modifiers.alt h))
