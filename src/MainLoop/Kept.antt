-- ===== src/MainLoop/Kept.antt =====
-- What a key leaves as it is in the application (crates/tiny-ssh-cli/src/app.rs).
use tiny_ssh.Base.{
  ◌≡◌, refl, ◌>>=◌, ◌&&◌, ◌||◌, ℕ, Option, none, some, [], ◌∷◌, Bytes, Bool-cases, Option-cases,
  inl, inr, subst, not, true,
}
use tiny_ssh.Utf8.{Text, into_bytes}
use tiny_ssh.Keys.{KeyEvent, encode}
use tiny_ssh.History.Database.{Sqlite}
use tiny_ssh.Terminal
use tiny_ssh.Terminal.{Vt, Terminal}
use tiny_ssh.App
use tiny_ssh.App.{App, Action}
use tiny_ssh.App.Input.{on_key, accept, forward, accepted, is_char}

module _ (vt : Vt) where
  -- What a key leaves as it is.
  pub record Keeps (app app' : App vt) : Type 0 where
    pub terminal_kept : app'.terminal ≡ app.terminal
    pub prompt_kept : app'.prompt_pos ≡ app.prompt_pos
    pub host_kept : app'.host ≡ app.host
    pub user_kept : app'.user ≡ app.user

  -- What a key can make of an application: nothing, another buffer, the other mouse capture, or a
  -- text for the clipboard.
  pub record KeyClosed (app : App vt) (P : App vt → Type 0) : Type 0 where
    pub by_nothing : P app
    pub by_shadow : (s : App.Shadow) → P (record app { shadow = s })
    pub by_mouse :
        P (record app { mouse_capture = not app.mouse_capture; mouse_capture_changed = true })
    pub by_copy : (text : Option Text) → P (record app { pending_clipboard = text })

  module _ (db : Sqlite) where
    abbrev pub Holds : (App vt → Type 0) → Option (App vt × db.Conn × Action) → Type 0
    Holds P none = Unit
    Holds P (some r) = P r.0

    module _ (P : App vt → Type 0) (app : App vt) (closed : KeyClosed app P) where
      open closed use {by_nothing, by_shadow, by_mouse, by_copy}

      accept-Holds : (conn : db.Conn) (rest : Text) → Holds P (accept vt db app conn rest)
      unfolding accept
      accept-Holds conn rest = by_refresh _
        where
          by_refresh :
              (o : Option App.Shadow)
              → Holds P
                  (o >>= λ s. some (record app { shadow = s }, conn, App.send (into_bytes rest)))
          by_refresh none = tt
          by_refresh (some s) = by_shadow s

      forward-Holds :
          (conn : db.Conn) (clock : Option ℕ) (k : KeyEvent)
          → Holds P (forward vt db app conn clock k)
      unfolding forward
      forward-Holds conn clock k = by_bytes (encode k (Terminal.mode vt app.terminal)) _
        where
          by_bytes :
              (bytes : Bytes) (o : Option (App.Shadow × db.Conn))
              → Holds P (elim bytes [
                | [] ↦ some (app, conn, App.nothing)
                | b ∷ bs ↦ o >>= λ r. some (record app { shadow = r.0 }, r.1, App.send (b ∷ bs))
              ])
          by_bytes [] o = by_nothing
          by_bytes (b ∷ bs) none = tt
          by_bytes (b ∷ bs) (some r) = by_shadow r.0

      pub on_key-Holds :
          (conn : db.Conn) (clock : Option ℕ) (k : KeyEvent)
          → Holds P (on_key vt db app conn clock k)
      unfolding on_key
      on_key-Holds conn clock k = elim (Bool-cases (k.modifiers.control && is_char k.code b'q')) [
        | inl t ↦ rw t by_nothing
        | inr t ↦
            rw t
              (elim (Bool-cases (
                (k.modifiers.control && k.modifiers.shift)
                && (is_char k.code b'm' || is_char k.code b'M'))) [
                  | inl t ↦ rw t by_mouse
                  | inr t ↦
                      rw t
                        (elim (Bool-cases (
                          (k.modifiers.control && k.modifiers.shift)
                          && (is_char k.code b'c' || is_char k.code b'C'))) [
                            | inl t ↦ rw t (by_copy _)
                            | inr t ↦ rw t (elim (Option-cases (accepted k app.shadow)) [
                              | inl n ↦ rw n (forward-Holds conn clock k)
                              | inr (rest, g) ↦ rw g (accept-Holds conn rest)
                            ])
                          ])
                ])
      ]

    kept : (app : App vt) → KeyClosed app (Keeps app)
    kept app = record {
      by_nothing = record {
        terminal_kept = refl;
        prompt_kept = refl;
        host_kept = refl;
        user_kept = refl;
      };
      by_shadow = λ s. record {
        terminal_kept = refl;
        prompt_kept = refl;
        host_kept = refl;
        user_kept = refl;
      };
      by_mouse = record {
        terminal_kept = refl;
        prompt_kept = refl;
        host_kept = refl;
        user_kept = refl;
      };
      by_copy = λ text. record {
        terminal_kept = refl;
        prompt_kept = refl;
        host_kept = refl;
        user_kept = refl;
      };
    }

    pub key-Keeps :
        (app app' : App vt) (conn conn' : db.Conn) (clock : Option ℕ) (k : KeyEvent) (a : Action)
        → on_key vt db app conn clock k ≡ some (app', conn', a)
        → Keeps app app'
    key-Keeps app app' conn conn' clock k a e =
        subst (Holds (Keeps app)) e (on_key-Holds (Keeps app) app (kept app) conn clock k)
