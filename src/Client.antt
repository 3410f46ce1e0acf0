-- ===== src/Client.antt =====
-- `SshClient` of crates/tiny-ssh-core/src/transport/ssh/client.rs: connecting, authenticating and
-- opening a shell. What `russh` answers is the parameter `Transport`, an error of it its message.
pub mod Outcome
pub mod Tests
use tiny_ssh.Base.{ℕ, Bool, true, false, Option, none, some, Result, ok, err, codes, []}
use tiny_ssh.Utf8.{Text}
use tiny_ssh.HostKey.{ClientHandler}
use tiny_ssh.Session.Channel.{
  Russh, SshError, connect, auth, channel_open, pty, shell, auth_rejected, key_load,
  connect_timeout, other,
}
use tiny_ssh.Session.Driver.{Opening, refused, no_shell, opened}
use tiny_ssh.Config.{AuthMethod, password, public_key, SshConfig, PtyConfig}

-- A connection that is started, with the handler that checks the server's key, and what comes of
-- it; `timeout` answers nothing once the time is up. `display_duration` is its `{:?}`.
pub record Transport (russh : Russh) : Type 1 where
  pub Attempt : Type 0
  pub Handle : Type 0
  pub SecretKey : Type 0
  pub start : Text → ℕ → ClientHandler → Attempt
  pub run : Attempt → Result Text Handle
  pub timeout : ℕ → Attempt → Option (Result Text Handle)
  pub display_duration : ℕ → Text
  pub authenticate_password : Handle → Text → Text → Result Text Bool
  pub load_secret_key : Text → Option Text → Result Text SecretKey
  pub authenticate_publickey : Handle → Text → SecretKey → Result Text Bool
  pub channel_open_session : Handle → Result Text russh.Channel
  pub request_pty : russh.Channel → Text → ℕ → ℕ → Result Text russh.Channel
  pub request_shell : russh.Channel → Result Text russh.Channel
  pub disconnect_by_application : Handle → Text → Text → Result Text (Unit {0})

-- `?` behind `map_err`.
unfoldable pub and_then {ℓ κ} :
    {A : Type ℓ} {B : Type κ}
    → Result Text A
    → (Text → SshError)
    → (A → Result SshError B)
    → Result SshError B
and_then (ok a) f k = k a
and_then (err e) f k = err (f e)

-- `if accepted`.
unfoldable pub if_accepted {ℓ} : {A : Type ℓ} → A → Bool → Result SshError A
if_accepted a true = ok a
if_accepted a false = err auth_rejected

module _ (russh : Russh) (transport : Transport russh) where
  open transport use {
    Attempt, Handle, start, run, timeout, display_duration, authenticate_password, load_secret_key,
    authenticate_publickey, channel_open_session, request_pty, request_shell,
    disconnect_by_application,
  }

  unfoldable pub client_handler : SshConfig → ClientHandler
  client_handler c = record { policy = c.host_key_policy; host = c.host; port = c.port }

  -- The `match connect_timeout`.
  unfoldable pub await_handle : Option ℕ → Attempt → Result SshError Handle
  await_handle none attempt = and_then (run attempt) connect (λ h. ok h)
  await_handle (some d) attempt = elim (timeout d attempt) [
    | none ↦ err (connect_timeout (display_duration d))
    | some answer ↦ and_then answer connect (λ h. ok h)
  ]

  -- The handle, once the server has accepted.
  unfoldable pub authenticate : Handle → Text → AuthMethod → Result SshError Handle
  authenticate h user (password pw) =
      and_then (authenticate_password h user pw) auth (if_accepted h)
  authenticate h user (public_key path passphrase) =
      and_then (load_secret_key path passphrase) (key_load path)
        (λ key. and_then (authenticate_publickey h user key) auth (if_accepted h))

  unfoldable pub connect_client : SshConfig → Result SshError Handle
  connect_client c =
      elim (await_handle c.connect_timeout (start c.host c.port (client_handler c))) [
        | err e ↦ err e
        | ok h ↦ authenticate h c.user c.auth
      ]

  unfoldable pub open_shell : Handle → PtyConfig → Result SshError russh.Channel
  open_shell h p = and_then (channel_open_session h) channel_open (λ c.
      and_then (request_pty c p.term p.cols p.rows) pty
        (λ c'. and_then (request_shell c') shell (λ c''. ok c'')))

  -- The two `match` of `driver_task` on what the client answers.
  unfoldable pub opening : SshConfig → PtyConfig → Opening russh
  opening c p = elim (connect_client c) [
    | err e ↦ refused e
    | ok h ↦ elim (open_shell h p) [ err e ↦ no_shell e | ok channel ↦ opened channel ]
  ]

  -- The `?` of `disconnect` makes the error an `Other`.
  unfoldable pub disconnect : Handle → Result SshError (Unit {0})
  disconnect h = and_then (disconnect_by_application h (codes "bye") []) other (λ u. ok u)
