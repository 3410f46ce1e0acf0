-- ===== src/MainLoop/Quiet.antt =====
-- What a session leaves true of the terminal and of the prompt of the application
-- (crates/tiny-ssh-cli/src/app.rs).
use tiny_ssh.Base.{
  ◌≡◌, ◌≤◌, ◌<◌, refl, sym, ◌∙◌, ℕ, Option, none, some, List, [], ◌∷◌, length, arith, Bytes,
  Bool-cases, inl, inr, not, subst, ltb,
}
use tiny_ssh.Utf8.{Text}
use tiny_ssh.Osc.{
  OscEvent, osc_payload_cap, prompt_start, prompt_end, command_start, command_end, cwd,
}
use tiny_ssh.Osc.Bounds.{length-scan-le}
use tiny_ssh.Terminal
use tiny_ssh.Terminal.{Vt, Terminal}
use tiny_ssh.Session.{
  SessionEvent, state_changed, output, stderr, exit_status, error, driver_closed,
}
use tiny_ssh.App.{App}
use tiny_ssh.App.Output
use tiny_ssh.App.Output.{on_session_event, on_osc_event, on_osc_events, on_resize}
use tiny_ssh.MainLoop.Kept.{Keeps}

-- A position of a `u16` column and row.
abbrev pub IsSmall : Option (ℕ × ℕ) → Type 0
IsSmall none = Unit
IsSmall (some (col, row)) = (col < 0x10000) × (row < 0x10000)

module _ (vt : Vt) where
  -- The scanner is within its bound, and no event of it is left over.
  pub record IsDrained (t : Terminal vt) : Type 0 where
    pub bounded : length t.osc_scanner.payload ≤ osc_payload_cap
    pub drained : t.pending_osc ≡ []

  cursor-IsSmall : (t : Terminal vt) → IsSmall (some (Terminal.cursor vt t))
  unfolding Terminal.cursor
  cursor-IsSmall t = (omega arith, omega arith)

  -- All of the invariant but the shadow buffer.
  pub record Outer (host user : Text) (app : App vt) : Type 0 where
    pub quiet : IsDrained app.terminal
    pub prompt_small : IsSmall app.prompt_pos
    pub host_kept : app.host ≡ host
    pub user_kept : app.user ≡ user

  on_osc_event-Outer :
      (host user : Text) (app : App vt) (e : OscEvent)
      → Outer host user app
      → Outer host user (on_osc_event vt app e)
  unfolding on_osc_event
  on_osc_event-Outer host user app prompt_start o = o
  on_osc_event-Outer host user app prompt_end o = record {
    quiet = o.quiet;
    prompt_small = cursor-IsSmall app.terminal;
    host_kept = o.host_kept;
    user_kept = o.user_kept;
  }
  on_osc_event-Outer host user app command_start o = record {
    quiet = o.quiet;
    prompt_small = tt;
    host_kept = o.host_kept;
    user_kept = o.user_kept;
  }
  on_osc_event-Outer host user app command_end o = o
  on_osc_event-Outer host user app (cwd p) o = record {
    quiet = o.quiet;
    prompt_small = o.prompt_small;
    host_kept = o.host_kept;
    user_kept = o.user_kept;
  }

  on_osc_events-Outer :
      (host user : Text) (es : List OscEvent) (app : App vt)
      → Outer host user app
      → Outer host user (on_osc_events vt app es)
  unfolding on_osc_events
  on_osc_events-Outer host user [] app o = o
  on_osc_events-Outer host user (e ∷ es) app o =
      on_osc_events-Outer host user es (on_osc_event vt app e)
        (on_osc_event-Outer host user app e o)

  heuristic-Outer :
      (host user : Text) (app : App vt) (bytes : Bytes)
      → Outer host user app
      → Outer host user (Output.handle_prompt_heuristic vt app bytes)
  unfolding Output.handle_prompt_heuristic
  heuristic-Outer host user app bytes o = elim (Bool-cases (not app.last_input_was_enter)) [
    | inl t ↦ rw t o
    | inr t ↦ rw t (elim (Bool-cases (not (Output.contains b'\n' bytes))) [
      | inl u ↦ rw u o
      | inr u ↦ rw u (elim (Bool-cases (ltb 0 (Terminal.cursor vt app.terminal).0)) [
        | inl c ↦ rw c (record {
          quiet = o.quiet;
          prompt_small = cursor-IsSmall app.terminal;
          host_kept = o.host_kept;
          user_kept = o.user_kept;
        })
        | inr c ↦ rw c (record {
          quiet = o.quiet;
          prompt_small = o.prompt_small;
          host_kept = o.host_kept;
          user_kept = o.user_kept;
        })
      ])
    ])
  ]

  fed-IsDrained :
      (t : Terminal vt) (bytes : Bytes)
      → IsDrained t
      → IsDrained (Terminal.take_osc_events vt (Terminal.feed vt t bytes)).1
  unfolding Terminal.take_osc_events Terminal.feed
  fed-IsDrained t bytes d = record {
    bounded = length-scan-le bytes t.osc_scanner t.pending_osc d.bounded;
    drained = refl;
  }

  on_output-Outer :
      (host user : Text) (app : App vt) (bytes : Bytes)
      → Outer host user app
      → Outer host user (Output.on_output vt app bytes)
  unfolding Output.on_output
  on_output-Outer host user app bytes o = heuristic-Outer host user _ bytes (
      on_osc_events-Outer host user _ _ (record {
        quiet = fed-IsDrained app.terminal bytes o.quiet;
        prompt_small = o.prompt_small;
        host_kept = o.host_kept;
        user_kept = o.user_kept;
      }))

  Keeps-Outer :
      (host user : Text) (app app' : App vt)
      → Keeps vt app app'
      → Outer host user app
      → Outer host user app'
  Keeps-Outer host user app app' k o = record {
    quiet = subst IsDrained (sym k.terminal_kept) o.quiet;
    prompt_small = subst IsSmall (sym k.prompt_kept) o.prompt_small;
    host_kept = k.host_kept ∙ o.host_kept;
    user_kept = k.user_kept ∙ o.user_kept;
  }

  pub on_session_event-Outer :
      (host user : Text) (app : App vt) (e : SessionEvent)
      → Outer host user app
      → Outer host user (on_session_event vt app e)
  unfolding on_session_event
  on_session_event-Outer host user app (state_changed s) o =
      Keeps-Outer host user app _
        (record { terminal_kept = refl; prompt_kept = refl; host_kept = refl; user_kept = refl }) o
  on_session_event-Outer host user app (output bytes) o = on_output-Outer host user app bytes o
  on_session_event-Outer host user app (stderr bytes) o = on_output-Outer host user app bytes o
  on_session_event-Outer host user app (exit_status s) o = o
  on_session_event-Outer host user app (error msg) o =
      Keeps-Outer host user app _
        (record { terminal_kept = refl; prompt_kept = refl; host_kept = refl; user_kept = refl }) o
  on_session_event-Outer host user app driver_closed o =
      Keeps-Outer host user app _
        (record { terminal_kept = refl; prompt_kept = refl; host_kept = refl; user_kept = refl }) o
