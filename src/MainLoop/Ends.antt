-- ===== src/MainLoop/Ends.antt =====
-- When the main loop of crates/tiny-ssh-cli/src/main.rs returns.
use tiny_ssh.Base.{
  ℕ, ◌≡◌, refl, sym, Bool, true, false, ◌||◌, Option, none, some, List, [], ◌∷◌, ◌++◌, ap, subst,
  Bytes, ok, err, if◌then◌else◌,
}
use tiny_ssh.Utf8.{Text}
use tiny_ssh.History.Database.{Sqlite}
use tiny_ssh.Terminal.{Vt}
use tiny_ssh.Session.Handle.{Commands}
use tiny_ssh.MainLoop.{Input, Output, Main, before_select, on_input, draw}
use tiny_ssh.MainLoop.Tui.{Driven, panicked, waits, returned}
use tiny_ssh.MainLoop.Drive.{Tty, emit_all, finished, drive}
use tiny_ssh.MainLoop.Safe.{IsSound, Sound, sound, before_select-IsSound, on_input-Proceeds}
use tiny_ssh.MainLoop.Stopping.{ends, some_ends, on_input-Stopped, stopped_at}

module _ (vt : Vt) (db : Sqlite) (commands : Commands) (tty : Tty) where
  open tty use {State, emit}

  -- Outputs that are written one behind the other without an error, from a state to a state.
  abbrev pub Writes : State → List Output → State → Type 0
  Writes t [] t' = t ≡ t'
  Writes t (o ∷ os) t' = ((emit t o).1 ≡ none) × Writes (emit t o).0 os t'

  -- Whatever is written from the first state works, and leads to the second.
  abbrev pub AllWork : State → State → Type 0
  AllWork t0 t = (os : List Output) × Writes t0 os t

  -- Writes that work, and then one that leads to the state with the error.
  abbrev pub Fails : State → State → Text → Type 0
  Fails t0 t' e =
      (os : List Output) × (t : State) × (o : Output) × Writes t0 os t × (emit t o ≡ (t', some e))

  -- No panic; the loop waits in a sound state, or returns in one, as `b` says, and every write has
  -- worked; or it returns by the last write, which has failed.
  abbrev pub Ends : State → State × Driven (Main vt db commands) → Bool → Type 0
  Ends t0 (t, panicked) b = ⊥
  Ends t0 (t, waits m) b = IsSound vt db commands m × (b ≡ false) × AllWork t0 t
  Ends t0 (t, returned (ok m)) b = IsSound vt db commands m × (b ≡ true) × AllWork t0 t
  Ends t0 (t, returned (err e)) b = Fails t0 t e

  Writes-append :
      (t0 t t' : State) (os os' : List Output)
      → Writes t0 os t
      → Writes t os' t'
      → Writes t0 (os ++ os') t'
  Writes-append t0 t t' [] os' e w = subst (λ u. Writes u os' t') (sym e) w
  Writes-append t0 t t' (o ∷ os) os' (e, ws) w = (e, Writes-append (emit t0 o).0 t t' os os' ws w)

  all_behind : (t0 t t' : State) → AllWork t0 t → AllWork t t' → AllWork t0 t'
  all_behind t0 t t' (os, w) (os', w') = (os ++ os', Writes-append t0 t t' os os' w w')

  Fails-behind : (t0 t t' : State) (e : Text) → AllWork t0 t → Fails t t' e → Fails t0 t' e
  Fails-behind t0 t t' e (os, w) (os', u, o, w', f) =
      (os ++ os', u, o, Writes-append t0 t u os os' w w', f)

  Ends-behind :
      (t0 t : State) (r : State × Driven (Main vt db commands)) (b : Bool)
      → AllWork t0 t
      → Ends t r b
      → Ends t0 r b
  Ends-behind t0 t (t', panicked) b w x = x
  Ends-behind t0 t (t', waits m) b w (v, e, w') = (v, e, all_behind t0 t t' w w')
  Ends-behind t0 t (t', returned (ok m)) b w (v, e, w') = (v, e, all_behind t0 t t' w w')
  Ends-behind t0 t (t', returned (err e)) b w f = Fails-behind t0 t t' e w f

  abbrev MayFail : State → State × Option Text → Type 0
  MayFail t0 (t, none) = AllWork t0 t
  MayFail t0 (t, some e) = Fails t0 t e

  one_before :
      (t0 : State) (o : Output) (r : State × Option Text)
      → (emit t0 o).1 ≡ none
      → MayFail (emit t0 o).0 r
      → MayFail t0 r
  one_before t0 o (t, none) q h = all_behind t0 _ t (o ∷ [], (q, refl)) h
  one_before t0 o (t, some e) q h = Fails-behind t0 _ t e (o ∷ [], (q, refl)) h

  emit_all-MayFail : (t : State) (os : List Output) → MayFail t (emit_all tty t os)
  unfolding emit_all
  emit_all-MayFail t [] = ([], refl)
  emit_all-MayFail t (o ∷ os) = by_write (emit t o).1 refl (emit_all-MayFail (emit t o).0 os)
    where
      by_write :
          (failed : Option Text)
          → (emit t o).1 ≡ failed
          → MayFail (emit t o).0 (emit_all tty (emit t o).0 os)
          → MayFail t (elim failed [
            | some e ↦ ((emit t o).0, some e)
            | none ↦ emit_all tty (emit t o).0 os
          ])
      by_write none q h = one_before t o _ q h
      by_write (some e) q h = ([], t, o, refl, ap (λ x. ((emit t o).0, x)) q)

  finished-Ends :
      (t0 : State) (r : State × Option Text) (m : Main vt db commands) (b : Bool)
      → MayFail t0 r
      → IsSound vt db commands m
      → b ≡ true
      → Ends t0 (finished tty vt db commands r m) b
  unfolding finished
  finished-Ends t0 (t, none) m b h v e = (v, e, h)
  finished-Ends t0 (t, some e) m b h v q = h

  behind_writes :
      (t0 : State) (r : State × Option Text) (k : State → State × Driven (Main vt db commands))
      (b : Bool)
      → MayFail t0 r
      → ((t : State) → Ends t (k t) b)
      → Ends t0 (elim r.1 [ some e ↦ (r.0, returned (err e)) | none ↦ k r.0 ]) b
  behind_writes t0 (t, none) k b h later = Ends-behind t0 t (k t) b h (later t)
  behind_writes t0 (t, some e) k b h later = h

  module _ (base64 : Text → Bytes) (inputs : List (Option ℕ × Input)) where
    -- The loop behind an input.
    abbrev pub behind_input :
        State → Option (Bool × Bool × Main vt db commands) → State × Driven (Main vt db commands)
    behind_input t o = elim o [
      | none ↦ (t, panicked)
      | some (true, again, m) ↦
          finished tty vt db commands (emit_all tty t (if again then draw ∷ [] else [])) m
      | some (false, again, m) ↦ drive tty vt db commands base64 t m again inputs
    ]

    behind_input-Ends :
        (t : State) (i : Input) (r : Bool × Bool × Main vt db commands)
        → IsSound vt db commands r.2
        → r.0 ≡ ends i
        → ((t' : State) (m : Main vt db commands) (redraw : Bool)
            → IsSound vt db commands m
            → Ends t' (drive tty vt db commands base64 t' m redraw inputs) (some_ends inputs))
        → Ends t (behind_input t (some r)) (ends i || some_ends inputs)
    behind_input-Ends t i (true, again, m) v s later =
        rw (sym s) (finished-Ends t _ m true (emit_all-MayFail t _) v refl)
    behind_input-Ends t i (false, again, m) v s later = rw (sym s) (later t m again v)

  -- From a state with a valid buffer, whatever the user types, clicks, pastes or resizes and the
  -- session sends, in any order and for any answers of the history, the session and the terminal:
  -- no string operation of the main loop panics and its buffer stays valid. The loop returns an
  -- error only if a write to the terminal fails, and then the error of that write, the last that it
  -- does. Else every write has worked, and the loop returns if one of the terminal's events is
  -- Ctrl-Q, not released, or one of the two streams of events ends, or the session says that its
  -- driver has closed, and waits for more if none does.
  pub drive-Ends :
      (base64 : Text → Bytes) (inputs : List (Option ℕ × Input)) (t : State)
      (m : Main vt db commands) (redraw : Bool)
      → IsSound vt db commands m
      → Ends t (drive tty vt db commands base64 t m redraw inputs) (some_ends inputs)
  unfolding drive
  drive-Ends base64 [] t m redraw v =
      behind_writes t (emit_all tty t (before_select vt db commands base64 m redraw).0)
        (λ t'. (t', waits (before_select vt db commands base64 m redraw).1)) false
        (emit_all-MayFail t _)
        (λ t'. (before_select-IsSound vt db commands base64 m redraw v, refl, ([], refl)))
  drive-Ends base64 ((clock, i) ∷ inputs) t m redraw v =
      let (written, m') = before_select vt db commands base64 m redraw in
      let (r, e, w) =
        on_input-Proceeds vt db commands (Sound vt db) (sound vt db) m' clock i
          (before_select-IsSound vt db commands base64 m redraw v) in
      let s : r.0 ≡ ends i =
        stopped_at vt db commands _ r (ends i) e (on_input-Stopped vt db commands m' clock i) in
      behind_writes t (emit_all tty t written)
        (λ t'. behind_input base64 inputs t' (on_input vt db commands m' clock i)) _
        (emit_all-MayFail t written)
        (λ t'. rw e (behind_input-Ends base64 inputs t' i r w s (drive-Ends base64 inputs)))
