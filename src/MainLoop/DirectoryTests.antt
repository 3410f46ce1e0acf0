-- ===== src/MainLoop/DirectoryTests.antt =====
-- A shell that announces its directory by an OSC 7 that is cut in two.
use tiny_ssh.Base.{◌≡◌, refl, none, some, List, [], ◌∷◌, ◌++◌, codes}
use tiny_ssh.Session
use tiny_ssh.Session.{
  SessionEvent, connecting, authenticated, shell_open, state_changed, driver_closed,
}
use tiny_ssh.Session.Channel.{SshEvent}
use tiny_ssh.Session.Driver
use tiny_ssh.Session.Driver.{Branch, ev, opened, driver_task}
use tiny_ssh.Session.Delivery.{Delivers}
use tiny_ssh.Session.Tests.{wire, queue, queue-MpscLaws}
use tiny_ssh.Osc.Heard.{AnnouncedBy}
use tiny_ssh.Session.UpToEnd.{UpToEnd}
use tiny_ssh.Osc.Split.{Split}
use tiny_ssh.Osc.{default, OscEvent}
use tiny_ssh.Terminal
use tiny_ssh.Terminal.Tests.{tape}
use tiny_ssh.MainLoop.Mirror.{behind}
use tiny_ssh.MainLoop.Screen.{remote_bytes}
use tiny_ssh.MainLoop.Directory.{last_cwd, driver_task-cwd}
use tiny_ssh.App
use tiny_ssh.App.{App}

abbrev announcing : List Branch
announcing =
    ev (some (SshEvent.out (0x1b ∷ codes "]7;file://h/")))
    ∷ ev (some (SshEvent.stderr (codes "tmp" ++ (0x07 ∷ codes "$ "))))
    ∷ ev none
    ∷ []

abbrev heard : List SessionEvent
heard =
    state_changed connecting
    ∷ state_changed authenticated
    ∷ state_changed shell_open
    ∷ Session.output (0x1b ∷ codes "]7;file://h/")
    ∷ Session.stderr (codes "tmp" ++ (0x07 ∷ codes "$ "))
    ∷ state_changed Session.closed
    ∷ driver_closed
    ∷ []

heard_run : driver_task wire queue [] (opened []) announcing ≡ some heard
unfolding driver_task Driver.finish Driver.io_loop Driver.round Driver.on_ssh_event Driver.forward
    Driver.post
heard_run = refl

abbrev fresh : App tape
fresh = App.new tape (codes "h") (codes "u") 80 24

fresh_drained : fresh.terminal.pending_osc ≡ []
unfolding App.new Terminal.new
fresh_drained = refl

fresh_at_rest : fresh.terminal.osc_scanner ≡ default
unfolding App.new Terminal.new
fresh_at_rest = refl

driver_task-cwd_example :
    (es : List SessionEvent) × (taken : List Branch) × Delivers wire queue queue-MpscLaws [] heard
      es
    × UpToEnd wire announcing taken
    × (s : Split (remote_bytes taken)) × (heard' : List OscEvent) × AnnouncedBy s.items heard'
    × ((behind tape wire fresh es).cwd ≡ last_cwd heard' fresh.cwd)
driver_task-cwd_example =
    driver_task-cwd tape wire queue queue-MpscLaws (λ tx e. (tx ++ e ∷ [], refl)) [] heard []
      announcing fresh heard_run fresh_drained fresh_at_rest
