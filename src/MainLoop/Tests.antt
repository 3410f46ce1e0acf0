-- ===== src/MainLoop/Tests.antt =====
-- The main loop over a terminal and a history in memory, and a session that keeps its commands.
use tiny_ssh.Base.{
  ℕ, ◌≡◌, refl, true, some, List, [], ◌∷◌, ◌++◌, codes, ok, err, none, Bool, inl, Option, Bytes,
  false,
}
use tiny_ssh.Utf8.{Text}
use tiny_ssh.Keys.{char}
use tiny_ssh.History.Memory.{memory}
use tiny_ssh.Session.{SessionInput, output, resize, driver_closed}
use tiny_ssh.Session.Handle.{Commands, request_resize}
use tiny_ssh.App.Tests.{counter, app, key, typed-IsValid}
use tiny_ssh.Terminal
use tiny_ssh.App.Output.{on_resize, on_session_event}
use tiny_ssh.Target.{vt_dims}
use tiny_ssh.MainLoop
use tiny_ssh.MainLoop.{
  Input, terminal_event, session_event, key_event, paste, resize_event, Main, handle_terminal_event,
  before_select, Output,
}
use tiny_ssh.MainLoop.Drive.{Tty, emit_all, drive}
use tiny_ssh.Session.{SessionEvent}
use tiny_ssh.Session.Driver.{opened}
use tiny_ssh.Session.Delivery.{Delivers}
use tiny_ssh.Session.Tests.{wire, queue, queue-MpscLaws, branches, posted, driver_task_run}
use tiny_ssh.App
use tiny_ssh.App.{App}
use tiny_ssh.MainLoop.Mirror.{behind, ShowsEnd, driver_task-ShowsEnd}
use tiny_ssh.MainLoop.Reach.{Reach, start, Inv, Reach-Inv}
use tiny_ssh.MainLoop.Tui.{
  Step, enable_raw_mode, enter_screen, attempt, setup_terminal, run_tui, returned,
}
use tiny_ssh.MainLoop.InSync.{captured, CaptureLaws, InSync, drive-InSync}
use tiny_ssh.MainLoop.Ends.{Ends, drive-Ends}

abbrev pub commands : Commands
commands = record { Handle = List SessionInput; send = λ sent i. some (sent ++ i ∷ []) }

abbrev pub main : Main counter memory commands
main = record { app = app; conn = []; handle = [] }

-- A stand-in for base64.
abbrev pub into_text : Text → Bytes
into_text text = text

-- A resize reaches the session without the row of the status line.
resized_run :
    handle_terminal_event counter memory commands main (some 1) (resize_event 80 24)
    ≡ some (false, record main { handle = resize 80 23 ∷ [] })
unfolding handle_terminal_event MainLoop.resized MainLoop.ignored request_resize vt_dims on_resize
    Terminal.resize
resized_run = refl

abbrev inputs : List (Option ℕ × Input)
inputs =
    (some 1, terminal_event (some (ok (key_event (key (char b'x'))))))
    ∷ (some 2, session_event (some (output (codes "x"))))
    ∷ (some 3, session_event (some driver_closed))
    ∷ (some 4, session_event (some (output (codes "y"))))
    ∷ []

-- A terminal that keeps what is written to it.
abbrev pub screen : Tty
screen = record { State = List Output; emit = λ written o. (written ++ o ∷ [], none) }

drive-Ends_example :
    Ends counter memory commands screen []
      (drive screen counter memory commands into_text [] main true inputs)
      true
drive-Ends_example =
    drive-Ends counter memory commands screen into_text inputs [] main true typed-IsValid

-- A terminal that captures the mouse or does not.
abbrev lens : Tty
lens = record { State = Bool; emit = λ c o. (captured (o ∷ []) c, none) }

abbrev lens_laws : CaptureLaws lens
lens_laws = record { captures = λ c. c; captures-emit = λ c o h. refl }

abbrev toggled : List (Option ℕ × Input)
toggled =
    (
      some 1,
      terminal_event (
          some (
            ok (
              key_event (record (key (char b'm')) {
                modifiers = record { shift = true; control = true; alt = false; extra = false };
              })))),
    )
    ∷ []

drive-InSync_example :
    InSync counter memory commands lens lens_laws
      (drive lens counter memory commands into_text true main true toggled)
drive-InSync_example =
    drive-InSync counter memory commands lens lens_laws into_text toggled true main true
      typed-IsValid (inl refl)

-- A terminal that is gone.
abbrev gone : Tty
gone = record { State = Unit {0}; emit = λ t o. (t, some (codes "broken pipe")) }

-- The first frame fails, and no input is read.
frame_fails :
    drive gone counter memory commands into_text tt main true inputs
    ≡ (tt, returned (err (codes "broken pipe")))
unfolding drive emit_all before_select MainLoop.sync_mouse MainLoop.sync_clipboard
frame_fails = refl

driver_task-ShowsEnd_example :
    (es : List SessionEvent) × Delivers wire queue queue-MpscLaws [] posted es
    × ShowsEnd counter wire (opened []) (behind counter wire app es)
driver_task-ShowsEnd_example =
    driver_task-ShowsEnd counter wire queue queue-MpscLaws (λ tx e. (tx ++ e ∷ [], refl)) [] posted
      (opened []) branches app driver_task_run

-- The application behind a prompt and a change of the window.
abbrev fresh : App counter
fresh = App.new counter (codes "h") (codes "u") 80 24

abbrev prompted : SessionEvent
prompted = output (codes "$ ")

abbrev resized_app : App counter
resized_app = on_resize counter (on_session_event counter fresh prompted) 100 30

Reach-Inv_example : Inv counter memory (codes "h") (codes "u") resized_app
Reach-Inv_example =
    Reach-Inv counter memory {cols = 80} {rows = 24} {conn = []}
      (Reach.resize 100 30 (Reach.event prompted (start [])))

abbrev no_screen : Step → Option Text
no_screen enter_screen = some (codes "broken pipe")
no_screen _ = none

-- Without a screen the terminal stays in raw mode.
raw_mode_stays :
    run_tui {T = ℕ} {A = Unit {0}} no_screen (λ t. (t, returned (ok tt))) 7
    ≡ (enable_raw_mode ∷ [], 7, returned (err (codes "enter alt screen")))
unfolding run_tui setup_terminal attempt
raw_mode_stays = refl
