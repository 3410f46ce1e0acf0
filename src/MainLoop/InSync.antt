-- ===== src/MainLoop/InSync.antt =====
-- While the main loop of crates/tiny-ssh-cli/src/main.rs waits, the user's terminal captures the mouse
-- as the application wants it.
use tiny_ssh.Base.{
  ℕ, ◌≡◌, refl, sym, ◌∙◌, ap, subst, Bool, true, false, Option, none, some, List, [], ◌∷◌, Bytes,
  err, Bool-cases, Option-cases, inl, inr, if◌then◌else◌,
}
use tiny_ssh.Utf8.{Text}
use tiny_ssh.History.Database.{Sqlite}
use tiny_ssh.Terminal.{Vt}
use tiny_ssh.Session.Handle.{Commands}
use tiny_ssh.App.{App}
use tiny_ssh.MainLoop
use tiny_ssh.MainLoop.{Input, Output, capture_mouse, write, draw, Main, before_select, on_input}
use tiny_ssh.MainLoop.Tui.{Driven, panicked, waits, returned}
use tiny_ssh.MainLoop.Drive.{Tty, emit_all, finished, drive}
use tiny_ssh.MainLoop.Ends.{behind_input}
use tiny_ssh.MainLoop.Safe.{IsSound, before_select-IsSound, on_input-Proceeds}
use tiny_ssh.MainLoop.Capture.{Due, SoundDue, sound_due}

-- The mouse capture behind writes.
abbrev pub captured : List Output → Bool → Bool
captured [] c = c
captured (capture_mouse b ∷ os) c = captured os b
captured (write bytes ∷ os) c = captured os c
captured (draw ∷ os) c = captured os c

-- A terminal whose capture is what it was last told.
pub record CaptureLaws (tty : Tty) : Type 0 where
  pub captures : tty.State → Bool
  pub captures-emit :
      (t : tty.State) (o : Output)
      → (tty.emit t o).1 ≡ none
      → captures (tty.emit t o).0 ≡ captured (o ∷ []) (captures t)

captured-frame : (redraw c : Bool) → captured (if redraw then draw ∷ [] else []) c ≡ c
captured-frame true c = refl
captured-frame false c = refl

captured-cons :
    (o : Output) (os : List Output) (c : Bool)
    → captured (o ∷ os) c ≡ captured os (captured (o ∷ []) c)
captured-cons (capture_mouse b) os c = refl
captured-cons (write bytes) os c = refl
captured-cons draw os c = refl

undue :
    {vt : Vt} (app : App vt) (c : Bool)
    → app.mouse_capture_changed ≡ false
    → Due vt c app
    → c ≡ app.mouse_capture
undue app c f (inl e) = e
undue app c f (inr t) = cc

module _ (tty : Tty) (laws : CaptureLaws tty) where
  open tty use {State, emit}
  open laws use {captures, captures-emit}

  -- Unless a write has failed, the terminal captures as `c` says.
  abbrev pub Told : Bool → State × Option Text → Type 0
  Told c (t, none) = captures t ≡ c
  Told c (t, some e) = Unit

  emit_all-Told :
      (t : State) (os : List Output) → Told (captured os (captures t)) (emit_all tty t os)
  unfolding emit_all
  emit_all-Told t [] = refl
  emit_all-Told t (o ∷ os) = by_write (emit t o).1 refl (emit_all-Told (emit t o).0 os)
    where
      by_write :
          (failed : Option Text)
          → (emit t o).1 ≡ failed
          → Told (captured os (captures (emit t o).0)) (emit_all tty (emit t o).0 os)
          → Told (captured (o ∷ os) (captures t)) (elim failed [
            | some e ↦ ((emit t o).0, some e)
            | none ↦ emit_all tty (emit t o).0 os
          ])
      by_write (some e) q h = tt
      by_write none q h =
          subst (λ b. Told b (emit_all tty (emit t o).0 os))
            (ap (captured os) (captures-emit t o q) ∙ sym (captured-cons o os (captures t))) h

module _ (vt : Vt) (db : Sqlite) (commands : Commands) where
  -- What is written at the top of the loop brings the terminal up to date.
  before_select-captured :
      (base64 : Text → Bytes) (m : Main vt db commands) (redraw c : Bool)
      → Due vt c m.app
      → captured (before_select vt db commands base64 m redraw).0 c
        ≡ (before_select vt db commands base64 m redraw).1.app.mouse_capture
  unfolding before_select MainLoop.sync_mouse MainLoop.sync_clipboard
  before_select-captured base64 m redraw c d = elim (Bool-cases m.app.mouse_capture_changed) [
    | inl t ↦ elim (Option-cases m.app.pending_clipboard) [
      | inl n ↦ rw (t, n) refl
      | inr (x, n) ↦ rw (t, n) refl
    ]
    | inr t ↦ elim (Option-cases m.app.pending_clipboard) [
      | inl n ↦ rw (t, n) (captured-frame redraw c ∙ undue m.app c t d)
      | inr (x, n) ↦ rw (t, n) (captured-frame redraw c ∙ undue m.app c t d)
    ]
  ]

  module _ (tty : Tty) (laws : CaptureLaws tty) where
    open tty use {State}
    open laws use {captures}

    -- No panic, and the terminal is up to date if the loop waits.
    abbrev pub InSync : State × Driven (Main vt db commands) → Type 0
    InSync (t, panicked) = ⊥
    InSync (t, waits m) = captures t ≡ m.app.mouse_capture
    InSync (t, returned r) = Unit

    finished-InSync :
        (r : State × Option Text) (m : Main vt db commands)
        → InSync (finished tty vt db commands r m)
    unfolding finished
    finished-InSync (t, none) m = tt
    finished-InSync (t, some e) m = tt

    behind_writes :
        (r : State × Option Text) (k : State → State × Driven (Main vt db commands)) (c : Bool)
        → Told tty laws c r
        → ((t : State) → captures t ≡ c → InSync (k t))
        → InSync (elim r.1 [ some e ↦ (r.0, returned (err e)) | none ↦ k r.0 ])
    behind_writes (t, none) k c h later = later t h
    behind_writes (t, some e) k c h later = tt

    module _ (base64 : Text → Bytes) (inputs : List (Option ℕ × Input)) where
      behind_input-InSync :
          (t : State) (r : Bool × Bool × Main vt db commands)
          → SoundDue vt (captures t) db r.2.app
          → ((t' : State) (m : Main vt db commands) (redraw : Bool)
              → IsSound vt db commands m
              → Due vt (captures t') m.app
              → InSync (drive tty vt db commands base64 t' m redraw inputs))
          → InSync (behind_input vt db commands tty base64 inputs t (some r))
      behind_input-InSync t (true, again, m) q later = finished-InSync _ m
      behind_input-InSync t (false, again, m) (v, d) later = later t m again v d

    -- On a terminal whose mouse capture is what it was last told, from a state with a valid buffer in
    -- which the terminal captures as the application wants it or the change is noted: whenever the
    -- loop waits, the terminal captures the mouse exactly if the application wants it, whatever has
    -- happened before.
    pub drive-InSync :
        (base64 : Text → Bytes) (inputs : List (Option ℕ × Input)) (t : State)
        (m : Main vt db commands) (redraw : Bool)
        → IsSound vt db commands m
        → Due vt (captures t) m.app
        → InSync (drive tty vt db commands base64 t m redraw inputs)
    unfolding drive
    drive-InSync base64 [] t m redraw v d =
        let (written, m') = before_select vt db commands base64 m redraw in
        behind_writes (emit_all tty t written) (λ t'. (t', waits m')) _
          (emit_all-Told tty laws t written)
          (λ t' e. e ∙ before_select-captured base64 m redraw (captures t) d)
    drive-InSync base64 ((clock, i) ∷ inputs) t m redraw v d =
        let (written, m') = before_select vt db commands base64 m redraw in
        let sound' = before_select-IsSound vt db commands base64 m redraw v in
        behind_writes (emit_all tty t written)
          (λ t'.
            behind_input vt db commands tty base64 inputs t' (on_input vt db commands m' clock i))
          _ (emit_all-Told tty laws t written)
          (λ t' told.
            let up_to_date : captures t' ≡ m'.app.mouse_capture =
              told ∙ before_select-captured base64 m redraw (captures t) d in
            let (r, e, q) =
              on_input-Proceeds vt db commands (SoundDue vt (captures t') db)
                (sound_due vt (captures t') db) m' clock i (sound', inl up_to_date) in
            rw e (behind_input-InSync base64 inputs t' r q (drive-InSync base64 inputs)))
