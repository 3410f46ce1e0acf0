-- ===== src/MainLoop/Tui.antt =====
-- `run_tui`, `setup_terminal` and `teardown_terminal` of crates/tiny-ssh-cli/src/main.rs: what is
-- done to the user's terminal around `drive`. Which step fails is given.
use tiny_ssh.Base.{Option, none, some, List, [], ◌∷◌, ◌++◌, codes, Result, err}
use tiny_ssh.Utf8.{Text}

-- `enter_screen` and `leave_screen` stand for the screen, the mouse capture and the bracketed paste
-- that `execute!` writes at once.
pub data Step : Type 0 where
  enable_raw_mode enter_screen new_terminal disable_raw_mode leave_screen show_cursor : Step

-- Steps with the context of their errors, up to the first that fails.
unfoldable pub attempt : (Step → Option Text) → List (Step × Text) → List Step × Option Text
attempt failure [] = ([], none)
attempt failure ((step, context) ∷ steps) = elim (failure step) [
  | some e ↦ ([], some context)
  | none ↦ let (done, failed) = attempt failure steps in (step ∷ done, failed)
]

-- What has been done, and the error.
unfoldable pub setup_terminal : (Step → Option Text) → List Step × Option Text
setup_terminal failure = attempt failure (
    (enable_raw_mode, codes "enable raw mode")
    ∷ (enter_screen, codes "enter alt screen")
    ∷ (new_terminal, codes "init terminal")
    ∷ [])

-- Every step is tried, and no error is passed on.
unfoldable pub teardown_terminal : List Step
teardown_terminal = disable_raw_mode ∷ leave_screen ∷ show_cursor ∷ []

-- What comes of the main loop: a panic, a state in which it waits, or what it returns.
pub data Driven (A : Type 0) : Type 0 where
  panicked : Driven A
  waits : A → Driven A
  returned : Result Text A → Driven A

unfoldable pub torn_down : {A : Type 0} → Driven A → List Step
torn_down panicked = []
torn_down (waits a) = []
torn_down (returned r) = teardown_terminal

-- The steps that have been done, the user's terminal, and what comes of the main loop, which is run
-- on that terminal; a panic skips the end.
unfoldable pub run_tui :
    {T A : Type 0} → (Step → Option Text) → (T → T × Driven A) → T → List Step × T × Driven A
run_tui failure drive t =
    let (done, failed) = setup_terminal failure in
    let (t', driven) = drive t in
    elim failed [
      | some e ↦ (done, t, returned (err e))
      | none ↦ (done ++ torn_down driven, t', driven)
    ]
