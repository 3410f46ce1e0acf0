-- ===== src/MainLoop/RemoteTests.antt =====
-- Two keys on their way to a line editor in memory.
use tiny_ssh.Base.{
  ℕ, ◌≡◌, refl, true, false, Option, none, some, List, [], ◌∷◌, ◌++◌, Bytes, codes, arith, inl,
}
use tiny_ssh.Keys.{KeyCode, KeyEvent, char, encode, encode_code, encode_char, arrow}
use tiny_ssh.Utf8.{encode_utf8}
use tiny_ssh.History
use tiny_ssh.History.Memory.{memory, newest_row}
use tiny_ssh.Terminal
use tiny_ssh.Session
use tiny_ssh.Session.{SessionInput, disconnect}
use tiny_ssh.Session.Channel
use tiny_ssh.Session.Channel.{SshEvent}
use tiny_ssh.Session.Handle.{send_bytes}
use tiny_ssh.Session.Driver
use tiny_ssh.Session.Driver.{Branch, cmd, ev}
use tiny_ssh.Session.{SessionEvent}
use tiny_ssh.Session.Delivery.{Delivers}
use tiny_ssh.Session.UpToEnd.{UpToEnd}
use tiny_ssh.Terminal.Tests.{tape, tape-VtLaws}
use tiny_ssh.App
use tiny_ssh.App.{App}
use tiny_ssh.MainLoop.Mirror.{behind}
use tiny_ssh.MainLoop.Screen.{quiet, remote_bytes, driver_task-fed}
use tiny_ssh.Session.Tests.{
  queue-MpscLaws, branches, posted, driver_task_run, wire, queue, wire_laws,
}
use tiny_ssh.Engine
use tiny_ssh.App.Edit.{insert_char, insert, char_to_byte, nth, char_indices}
use tiny_ssh.App.Suggestion.{refresh_suggestion, ghost}
use tiny_ssh.App.Input.{on_key, accepted, forward, apply_to_shadow, apply_code, refreshed}
use tiny_ssh.App.Editing.{line, moved_left, split_last}
use tiny_ssh.App.Readline.{
  Reader, reader, ready, readline, readline-ReadlineLaws, read_all, next, begin, final,
}
use tiny_ssh.App.Typing.{AllFollowed}
use tiny_ssh.App.Tests.{counter, app, key, typed-IsValid}
use tiny_ssh.Utf8
use tiny_ssh.MainLoop.{Main, handle_terminal_event, on_key_event, on_action, reported}
use tiny_ssh.MainLoop.Delivery.{OpenLaws, press_keys}
use tiny_ssh.MainLoop.Remote.{Mirrors, press_keys-Mirrors}
use tiny_ssh.MainLoop.Tests.{commands, main}

abbrev open_commands : OpenLaws commands
open_commands = record { queued = λ is. is; takes = λ is i. (is ++ i ∷ [], refl, refl) }

abbrev keys : List (Option ℕ × KeyEvent)
keys = (some 1, key (char b'x')) ∷ (some 2, key KeyCode.left) ∷ []

keys-AllFollowed : AllFollowed counter memory app [] keys
keys-AllFollowed = (
  ((omega arith, (λ e. omega arith), (omega arith, inl (omega arith))), tt, tt, (λ rest q. cc)),
  λ _ _ _ _. ((tt, tt, tt, (λ rest q. cc)), λ _ _ _ _. tt),
)

abbrev left_bytes : Bytes
left_bytes = 0x1b ∷ codes "[D"

abbrev pressed : Main counter memory commands
pressed = record {
  app = record app {
    shadow = record {
      shadow_input = codes "gixt";
      shadow_cursor = 2;
      suggestion = none;
      last_action_was_suggestion = false;
      last_input_was_enter = false;
    };
  };
  conn = [];
  handle = SessionInput.bytes (codes "x") ∷ SessionInput.bytes left_bytes ∷ [];
}

keys-pressed : press_keys counter memory commands main keys ≡ some (false, pressed)
unfolding press_keys handle_terminal_event on_key_event on_action reported send_bytes on_key
    accepted forward apply_to_shadow apply_code refreshed insert_char insert char_to_byte nth
    char_indices refresh_suggestion ghost Engine.suggest History.suggest History.passes
    History.pass_host newest_row encode encode_code encode_char arrow encode_utf8 Utf8.split_at
    Utf8.len Utf8.len_utf8 Terminal.mode
keys-pressed = refl

abbrev blank : Reader
blank = reader ready (line [] [])

abbrev opened : Driver.Io wire queue
opened = record { session = codes "git" ++ left_bytes; event_tx = [] }

abbrev before : List Branch
before =
    cmd (some (SessionInput.bytes (codes "x")))
    ∷ ev (some (SshEvent.out (codes "x")))
    ∷ cmd (some (SessionInput.bytes left_bytes))
    ∷ []

-- What the wire holds at the end.
abbrev taken : Driver.Io wire queue
taken = record {
  session = codes "git" ++ (left_bytes ++ (codes "x" ++ left_bytes));
  event_tx = Session.output (codes "x") ∷ [];
}

driven :
    Driver.io_loop wire queue opened (before ++ cmd (some disconnect) ∷ []) ≡ some (true, taken)
unfolding Driver.io_loop Driver.round Driver.on_cmd Driver.on_ssh_event Driver.forward Driver.post
    Channel.write_data Channel.close
driven = refl

opened-Mirrors :
    Mirrors counter memory commands open_commands readline readline-ReadlineLaws wire wire_laws
      queue blank opened.session main
unfolding read_all next begin final moved_left split_last
opened-Mirrors = (refl, record { input_is = refl; cursor_is = refl })

press_keys-Mirrors_example :
    Mirrors counter memory commands open_commands readline readline-ReadlineLaws wire wire_laws
      queue blank taken.session pressed
press_keys-Mirrors_example =
    press_keys-Mirrors counter memory commands open_commands readline readline-ReadlineLaws wire
      wire_laws queue blank keys main pressed before [] opened taken (tt, (tt, tt)) typed-IsValid
      keys-AllFollowed opened-Mirrors keys-pressed refl ((λ h. h), ((λ h. h), ((λ h. h), tt)))
      driven

abbrev drawn : App tape
drawn = App.new tape (codes "h") (codes "u") 80 24

driver_task-fed_example :
    (es : List SessionEvent) × (took : List Branch) × Delivers wire queue queue-MpscLaws [] posted
      es
    × UpToEnd wire branches took
    × (quiet tape (behind tape wire drawn es).terminal
        ≡ quiet tape (Terminal.feed tape drawn.terminal (remote_bytes took)))
driver_task-fed_example =
    driver_task-fed tape tape-VtLaws wire queue queue-MpscLaws (λ tx e. (tx ++ e ∷ [], refl)) []
      posted [] branches drawn driver_task_run
