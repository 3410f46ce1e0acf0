-- ===== src/Launch/Program/Tests.antt =====
-- The program over a history in memory, a session that keeps its commands, and a terminal whose steps
-- work.
use tiny_ssh.Base.{ℕ, refl, none, some, List, [], ◌∷◌, arith, ok, Option}
use tiny_ssh.Utf8.{Text}
use tiny_ssh.History.Memory.{memory}
use tiny_ssh.History.Open.Tests.{disk}
use tiny_ssh.Session.{driver_closed}
use tiny_ssh.Session.Spawn.{Runtime}
use tiny_ssh.App.Tests.{counter}
use tiny_ssh.MainLoop.{Input, session_event}
use tiny_ssh.MainLoop.Tests.{commands, into_text, screen}
use tiny_ssh.MainLoop.Tui.{Step}
use tiny_ssh.Launch.Tests.{env, form, cli}
use tiny_ssh.Launch.Program.{program}
use tiny_ssh.Launch.Program.Outcome.{Finished, program-Finished}

-- The task is a number.
abbrev runtime : Runtime commands
runtime = record {
  Task = ℕ;
  Events = Unit {0};
  start = λ config pty. ([], tt, 5);
  recv = λ events. (none, events);
  join = λ task. ok tt;
}

abbrev working : Step → Option Text
working s = none

abbrev closes : List (Option ℕ × Input)
closes = (some 1, session_event (some driver_closed)) ∷ []

program-Finished_example :
    Finished counter memory commands runtime screen env disk working closes [] form cli
      (some (80, 24))
      (program counter memory commands runtime screen env disk cli
        (some (80, 24))
        working
        into_text
        []
        closes
        1)
program-Finished_example =
    program-Finished counter memory commands runtime screen env disk working into_text [] closes
      form cli (some (80, 24)) 1 (((λ e. cc), omega arith), (λ e. ground arith), omega arith) refl
