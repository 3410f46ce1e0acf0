-- ===== src/Lib.antt =====
-- tiny-ssh, an SSH client for the terminal that suggests commands from a history while the user
-- types: a model of its Rust crates, crates/tiny-ssh-core and crates/tiny-ssh-cli.
--
-- The parts and how they interact. The main loop (crates/tiny-ssh-cli/src/main.rs) takes events of
-- the user's terminal and of the session. A key goes to `App::on_key` (app.rs), which takes it
-- locally, accepts the ghost text, or encodes it (keys.rs) for the remote and edits a shadow copy of
-- the remote's command line; each edit asks the suggestion engine
-- (crates/tiny-ssh-core/src/suggest.rs) and it the history (history.rs) for a ghost text. The driver
-- of the session (session.rs) writes the bytes to the SSH channel and posts what the remote sends;
-- the application feeds it to the terminal emulator and to the OSC scanner (term.rs), whose events
-- clear the shadow buffer, set the prompt's position and change the directory. The client checks
-- the server's key before that (transport/ssh/client.rs).
--
-- Files and code:
--   Base           shared names: Boolean tests, lists over native numbers, results, integers.
--   Utf8, Decimal  Rust's `char`, `str` and `String`, `Display` and `parse` of numbers.
--   Keys           keys.rs: `encode`, `encode_mouse` and their helpers. Keys/Decode and
--                  Keys/Gesture are how a program reads them.
--   Osc            term.rs: `OscScanner`; `scan_byte` is one round of the loop of `scan`.
--   FileUrl        term.rs: `parse_file_url`.
--   Terminal       term.rs: `Terminal` over alacritty's terminal, the parameter `Vt`.
--   History        history.rs: `record` is `record_entry`; SQLite is the parameter `Sqlite` of
--                  History/Database, and History/Memory is a table in memory that meets its laws;
--                  History/Open is `open_default`, over the parameter `Disk`.
--   Engine         suggest.rs.
--   HostKey        transport/ssh/client.rs: `check_server_key`, and the policies of config.rs.
--   Session        session.rs, transport/ssh/session.rs and error.rs: Session/Channel is
--                  `SshSession`, Session/Handle is `SessionHandle`, Session/Driver is `driver_task`
--                  and `io_loop`, Session/Spawn is `spawn`. Session/UpToEnd says which branches
--                  the loop has taken when it ends.
--   App            app.rs: App/Edit and App/Input are the keys, App/Suggestion is
--                  `refresh_suggestion`, App/Gate is `can_show_suggestion`, App/Output is
--                  `on_session_event`. App/Remote is the parameter `Editor`, the line editor on the
--                  other side; App/Readline is one in memory that meets its laws, and App/Rubout
--                  its Ctrl-W. A word ends at a space or a tab for it, and at any white space for
--                  `kill_word_backward`.
--   Target         main.rs: `parse_target` and `vt_dims`.
--   MainLoop       main.rs: `handle_terminal_event`, `drive` in MainLoop/Drive, and `run_tui`
--                  in MainLoop/Tui; MainLoop/Reach has the states that the application can be in,
--                  MainLoop/Remote the way of a key to the remote line, MainLoop/Screen the way of
--                  the remote's output to the terminal, MainLoop/Directory that of a directory
--                  that it announces.
--   Launch         main.rs: `main` up to the session, and `build_auth`; Launch/Program is the whole
--                  of `main`.
--   Client         transport/ssh/client.rs: `SshClient`.
--   Config         transport/ssh/config.rs: the configuration and its `Debug`.
--   Ui             ui.rs: what a frame shows.
--
-- State is passed on explicitly. A text is the list of its scalar values, bytes and native numbers
-- stand for the machine's, and a signed number is an integer by value. An operation that panics in
-- Rust (a string index off a character boundary, an index out of range) is `Option`. The clock is
-- an argument: the seconds since 1970, or nothing for a time before. A score in [0, 1] is held in
-- tenths. Of KeyModifiers only Shift, Control and Alt have names.
-- A mouse position wraps on `u16`, as in a release build.
--
-- Bounds: every loop is structural, on the bytes, the characters, the cursor or the list of events.
-- A number is displayed with at most twenty digits, which is enough below 2 ^ 64. The loops that
-- wait (`drive`, `io_loop`) take the list of what arrives, in the order in which `select!` yields
-- it, and say at its end that they still wait.
--
-- Not modelled: colours, logging, and the tests.
-- Third-party code is a parameter with its documented behaviour as laws: `Vt`, `Ratatui`, `Sqlite`,
-- `Disk`, `Tty`, `Russh`, `Runtime`, `Transport`, `Mpsc`, `Commands`, `KnownHosts`, `Debug`,
-- `Environment` and, in theorems only, `Editor`.
pub mod Base
pub mod Utf8
pub mod Decimal
pub mod FileUrl
pub mod Keys
pub mod Osc
pub mod History
pub mod Engine
pub mod Terminal
pub mod Session
pub mod App
pub mod Target
pub mod MainLoop
pub mod HostKey
pub mod Ui
pub mod Config
pub mod Client
pub mod Launch
