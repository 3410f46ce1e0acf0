-- ===== src/MainLoop/Directory.antt =====
-- From the OSC 7 of the remote's shell through the driver (crates/tiny-ssh-core/src/session.rs), the
-- scanner (crates/tiny-ssh-cli/src/term.rs) and the application (app.rs) to the directory that the
-- history is asked about.
use tiny_ssh.Base.{
  ◌≡◌, refl, sym, ◌∙◌, ap, Option, some, List, [], ◌∷◌, ◌++◌, Bytes, Bool-cases, inl, inr, not,
}
use tiny_ssh.Utf8.{Text}
use tiny_ssh.Osc.{OscEvent, OscScanner, default, cwd, scan}
use tiny_ssh.Osc.Chunks.{scan-out, scan-append}
use tiny_ssh.Osc.Split.{Split}
use tiny_ssh.Osc.Heard.{AnnouncedBy, scan_stream}
use tiny_ssh.Session.UpToEnd.{UpToEnd}
use tiny_ssh.Terminal.{Vt, feed, take_osc_events}
use tiny_ssh.Session.{
  SessionEvent, state_changed, output, stderr, exit_status, error, driver_closed,
}
use tiny_ssh.Session.Channel.{Russh}
use tiny_ssh.Session.Driver
use tiny_ssh.Session.Driver.{Mpsc, MpscLaws, Branch, opened}
use tiny_ssh.Session.Delivery.{IsAttended, Delivers}
use tiny_ssh.App.{App}
use tiny_ssh.App.Output.{
  on_osc_event, on_osc_events, handle_prompt_heuristic, on_output, on_session_event, contains,
}
use tiny_ssh.MainLoop.Mirror.{behind}
use tiny_ssh.MainLoop.Screen.{printed, remote_bytes, on_output-terminal, driver_task-printed}

-- The path of the last directory that is announced, or else the one before.
abbrev pub last_cwd : List OscEvent → Option Text → Option Text
last_cwd [] c = c
last_cwd (cwd p ∷ es) c = last_cwd es (some p)
last_cwd (_ ∷ es) c = last_cwd es c

last_cwd-append :
    (es fs : List OscEvent) (c : Option Text) → last_cwd (es ++ fs) c ≡ last_cwd fs (last_cwd es c)
last_cwd-append [] fs c = refl
last_cwd-append (cwd p ∷ es) fs c = last_cwd-append es fs (some p)
last_cwd-append (_ ∷ es) fs c = last_cwd-append es fs c

-- Two scans in a row announce what one does.
last_cwd-scan :
    (s : OscScanner) (d rest : Bytes) (c : Option Text)
    → last_cwd (scan (scan s d []).0 rest []).1 (last_cwd (scan s d []).1 c)
      ≡ last_cwd (scan s (d ++ rest) []).1 c
last_cwd-scan s d rest c =
    sym (last_cwd-append (scan s d []).1 _ c)
    ∙ ap (λ r. last_cwd r.1 c)
        (sym (scan-append d rest s [] ∙ scan-out rest (scan s d []).0 (scan s d []).1))

module _ (vt : Vt) where
  on_osc_events-cwd :
      (es : List OscEvent) (app : App vt) → (on_osc_events vt app es).cwd ≡ last_cwd es app.cwd
  unfolding on_osc_events on_osc_event
  on_osc_events-cwd [] app = refl
  on_osc_events-cwd (cwd p ∷ es) app = on_osc_events-cwd es (on_osc_event vt app (cwd p))
  on_osc_events-cwd (e ∷ es) app = on_osc_events-cwd es (on_osc_event vt app e)

  handle_prompt_heuristic-cwd :
      (app : App vt) (bytes : Bytes) → (handle_prompt_heuristic vt app bytes).cwd ≡ app.cwd
  unfolding handle_prompt_heuristic
  handle_prompt_heuristic-cwd app bytes = elim (Bool-cases (not app.last_input_was_enter)) [
    | inl t ↦ rw t refl
    | inr t ↦
        rw t
          (elim (Bool-cases (not (contains b'\n' bytes))) [ inl u ↦ rw u refl | inr u ↦ rw u refl ])
  ]

  on_output-cwd :
      (app : App vt) (d : Bytes)
      → app.terminal.pending_osc ≡ []
      → (on_output vt app d).cwd ≡ last_cwd (scan app.terminal.osc_scanner d []).1 app.cwd
  unfolding on_output take_osc_events feed
  on_output-cwd app d q =
      handle_prompt_heuristic-cwd _ d
      ∙ on_osc_events-cwd _ _
      ∙ ap (λ o. last_cwd (scan app.terminal.osc_scanner d o).1 app.cwd) q

  -- The scanner behind output, and no event is left over.
  on_output-scanner :
      (app : App vt) (d : Bytes)
      → app.terminal.pending_osc ≡ []
      → (on_output vt app d).terminal.osc_scanner ≡ (scan app.terminal.osc_scanner d []).0
  unfolding feed
  on_output-scanner app d q =
      ap (λ t. t.osc_scanner) (on_output-terminal vt app d)
      ∙ ap (λ o. (scan app.terminal.osc_scanner d o).0) q

  on_output-drained : (app : App vt) (d : Bytes) → (on_output vt app d).terminal.pending_osc ≡ []
  on_output-drained app d = ap (λ t. t.pending_osc) (on_output-terminal vt app d)

  module _ (russh : Russh) where
    behind_output :
        (es : List SessionEvent) (app : App vt) (d : Bytes)
        → app.terminal.pending_osc ≡ []
        → ((app' : App vt)
            → app'.terminal.pending_osc ≡ []
            → (behind vt russh app' es).cwd
              ≡ last_cwd (scan app'.terminal.osc_scanner (printed es) []).1 app'.cwd)
        → (behind vt russh (on_output vt app d) es).cwd
          ≡ last_cwd (scan app.terminal.osc_scanner (d ++ printed es) []).1 app.cwd
    behind_output es app d q later =
        later (on_output vt app d) (on_output-drained app d)
        ∙ ap (λ s. last_cwd (scan s (printed es) []).1 (on_output vt app d).cwd)
            (on_output-scanner app d q)
        ∙ ap (last_cwd (scan (scan app.terminal.osc_scanner d []).0 (printed es) []).1)
            (on_output-cwd app d q)
        ∙ last_cwd-scan app.terminal.osc_scanner d (printed es) app.cwd

    behind-cwd :
        (es : List SessionEvent) (app : App vt)
        → app.terminal.pending_osc ≡ []
        → (behind vt russh app es).cwd
          ≡ last_cwd (scan app.terminal.osc_scanner (printed es) []).1 app.cwd
    unfolding on_session_event scan
    behind-cwd [] app q = refl
    behind-cwd (output d ∷ es) app q = behind_output es app d q (behind-cwd es)
    behind-cwd (stderr d ∷ es) app q = behind_output es app d q (behind-cwd es)
    behind-cwd (state_changed s ∷ es) app q =
        behind-cwd es (on_session_event vt app (state_changed s)) q
    behind-cwd (exit_status s ∷ es) app q = behind-cwd es app q
    behind-cwd (error e ∷ es) app q = behind-cwd es (on_session_event vt app (error e)) q
    behind-cwd (driver_closed ∷ es) app q = behind-cwd es (on_session_event vt app driver_closed) q

    module _ (mpsc : Mpsc) (queue : MpscLaws mpsc) where
      -- While the handle keeps its receiver, and the scanner begins at rest: once the driver of an
      -- open shell has ended, and the application has handled what it has posted, its directory is
      -- the last one that the first 4096 bytes of the payloads of the finished OSC strings announce
      -- in all that the remote has printed up to the end, however the stream was cut and on whichever
      -- of the two streams; without one it is as before. The end is the first branch in which the
      -- user disconnects, the handle is dropped, or the channel is closed or drained, or a command
      -- before that whose bytes the channel can refuse.
      pub driver_task-cwd :
          IsAttended russh mpsc queue
          → (tx tx' : mpsc.Sender) (c : russh.Channel) (bs : List Branch) (app : App vt)
          → Driver.driver_task russh mpsc tx (opened c) bs ≡ some tx'
          → app.terminal.pending_osc ≡ []
          → app.terminal.osc_scanner ≡ default
          → (es : List SessionEvent) × (taken : List Branch) × Delivers russh mpsc queue tx tx' es
            × UpToEnd russh bs taken
            × (s : Split (remote_bytes taken)) × (heard : List OscEvent) × AnnouncedBy s.items heard
            × ((behind vt russh app es).cwd ≡ last_cwd heard app.cwd)
      driver_task-cwd attended tx tx' c bs app h q at_rest =
          let (es, taken, sent, up_to_end, all) =
            driver_task-printed russh mpsc queue attended tx tx' c bs h in
          let (s, announced) = scan_stream (remote_bytes taken) in
          (
            es,
            taken,
            sent,
            up_to_end,
            s,
            (scan default (remote_bytes taken) []).1,
            announced,
            behind-cwd es app q
                ∙ ap (λ b. last_cwd (scan app.terminal.osc_scanner b []).1 app.cwd) all
                ∙ ap (λ r. last_cwd (scan r (remote_bytes taken) []).1 app.cwd) at_rest,
          )
