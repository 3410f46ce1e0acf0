-- ===== src/Client/Outcome.antt =====
-- What each answer of `connect` means.
use tiny_ssh.Base.{ℕ, ◌≡◌, refl, sym, subst, Bool, true, false, Option, none, some, Result, ok, err}
use tiny_ssh.Utf8.{Text}
use tiny_ssh.Session.Channel.{
  Russh, SshError, connect, auth, auth_rejected, key_load, connect_timeout,
}
use tiny_ssh.Config.{AuthMethod, password, public_key, SshConfig}
use tiny_ssh.Client
use tiny_ssh.Client.{Transport, and_then, if_accepted, await_handle, authenticate, connect_client}

module _ (russh : Russh) (transport : Transport russh) where
  open transport use {
    Attempt, Handle, start, run, timeout, display_duration, authenticate_password, load_secret_key,
    authenticate_publickey,
  }

  abbrev pub attempt : SshConfig → Attempt
  attempt c = start c.host c.port (Client.client_handler russh transport c)

  -- What the attempt comes to within the time, if there is a limit.
  abbrev pub Comes : Option ℕ → Attempt → Result Text Handle → Type 0
  Comes none a r = run a ≡ r
  Comes (some d) a r = timeout d a ≡ some r

  abbrev pub TimesOut : Option ℕ → Attempt → Text → Type 0
  TimesOut none a msg = ⊥
  TimesOut (some d) a msg = (timeout d a ≡ none) × (msg ≡ display_duration d)

  -- What the server answers to the password or the key.
  abbrev pub Replies : Handle → Text → AuthMethod → Result Text Bool → Type 0
  Replies h user (password pw) r = authenticate_password h user pw ≡ r
  Replies h user (public_key path pass) r =
      (key : transport.SecretKey) × (load_secret_key path pass ≡ ok key)
      × (authenticate_publickey h user key ≡ r)

  abbrev pub Unreadable : AuthMethod → Text → Text → Type 0
  Unreadable (password pw) path e = ⊥
  Unreadable (public_key p pass) path e = (p ≡ path) × (load_secret_key p pass ≡ err e)

  -- Why authentication ends as it does.
  abbrev Reason : Handle → Text → AuthMethod → Result SshError Handle → Type 0
  Reason h user a (ok h') = (h' ≡ h) × Replies h user a (ok true)
  Reason h user a (err auth_rejected) = Replies h user a (ok false)
  Reason h user a (err (auth e)) = Replies h user a (err e)
  Reason h user a (err (key_load path e)) = Unreadable a path e
  Reason h user a (err _) = ⊥

  -- Why a connection comes about or not, with a limit of time, an attempt, a user and a secret.
  abbrev pub Cause : Option ℕ → Attempt → Text → AuthMethod → Result SshError Handle → Type 0
  Cause limit a user m (ok h) = Comes limit a (ok h) × Replies h user m (ok true)
  Cause limit a user m (err (connect e)) = Comes limit a (err e)
  Cause limit a user m (err (connect_timeout msg)) = TimesOut limit a msg
  Cause limit a user m (err auth_rejected) =
      (h : Handle) × Comes limit a (ok h) × Replies h user m (ok false)
  Cause limit a user m (err (auth e)) =
      (h : Handle) × Comes limit a (ok h) × Replies h user m (err e)
  Cause limit a user m (err (key_load path e)) =
      (h : Handle) × Comes limit a (ok h) × Unreadable m path e
  Cause limit a user m (err _) = ⊥

  password-Reason :
      (h : Handle) (user pw : Text) (r : Result Text Bool)
      → authenticate_password h user pw ≡ r
      → Reason h user (password pw) (and_then r auth (if_accepted h))
  unfolding and_then if_accepted
  password-Reason h user pw (ok true) e = (refl, e)
  password-Reason h user pw (ok false) e = e
  password-Reason h user pw (err msg) e = e

  publickey-Reason :
      (h : Handle) (user path : Text) (pass : Option Text) (key : transport.SecretKey)
      (r : Result Text Bool)
      → load_secret_key path pass ≡ ok key
      → authenticate_publickey h user key ≡ r
      → Reason h user (public_key path pass) (and_then r auth (if_accepted h))
  unfolding and_then if_accepted
  publickey-Reason h user path pass key (ok true) l e = (refl, (key, l, e))
  publickey-Reason h user path pass key (ok false) l e = (key, l, e)
  publickey-Reason h user path pass key (err msg) l e = (key, l, e)

  loaded-Reason :
      (h : Handle) (user path : Text) (pass : Option Text) (r : Result Text transport.SecretKey)
      → load_secret_key path pass ≡ r
      → Reason h user (public_key path pass) (
          and_then r
            (key_load path)
            (λ key. and_then (authenticate_publickey h user key) auth (if_accepted h)))
  unfolding and_then
  loaded-Reason h user path pass (ok key) l = publickey-Reason h user path pass key _ l refl
  loaded-Reason h user path pass (err e) l = (refl, l)

  authenticate-Reason :
      (h : Handle) (user : Text) (a : AuthMethod)
      → Reason h user a (authenticate russh transport h user a)
  unfolding authenticate
  authenticate-Reason h user (password pw) = password-Reason h user pw _ refl
  authenticate-Reason h user (public_key path pass) = loaded-Reason h user path pass _ refl

  with_handle :
      (limit : Option ℕ) (a : Attempt) (user : Text) (m : AuthMethod) (h : Handle)
      (r : Result SshError Handle)
      → Comes limit a (ok h)
      → Reason h user m r
      → Cause limit a user m r
  with_handle limit a user m h (ok h') c q =
      subst (λ k. Comes limit a (ok k) × Replies k user m (ok true)) (sym q.0) (c, q.1)
  with_handle limit a user m h (err auth_rejected) c q = (h, c, q)
  with_handle limit a user m h (err (auth e)) c q = (h, c, q)
  with_handle limit a user m h (err (key_load path e)) c q = (h, c, q)
  with_handle limit a user m h (err _) c q = elim q [ ]

  -- What follows an answer.
  abbrev continued : Text → AuthMethod → Result SshError Handle → Result SshError Handle
  continued user m (err e) = err e
  continued user m (ok h) = authenticate russh transport h user m

  answered :
      (limit : Option ℕ) (a : Attempt) (user : Text) (m : AuthMethod) (r : Result Text Handle)
      → Comes limit a r
      → Cause limit a user m (continued user m (and_then r connect (λ h. ok h)))
  unfolding and_then
  answered limit a user m (ok h) c = with_handle limit a user m h _ c (authenticate-Reason h user m)
  answered limit a user m (err e) c = c

  timed :
      (d : ℕ) (a : Attempt) (user : Text) (m : AuthMethod) (o : Option (Result Text Handle))
      → timeout d a ≡ o
      → Cause (some d) a user m (
          continued user m (elim o [
            | none ↦ err (connect_timeout (display_duration d))
            | some answer ↦ and_then answer connect (λ h. ok h)
          ]))
  timed d a user m none e = (e, refl)
  timed d a user m (some r) e = answered (some d) a user m r e

  awaited :
      (limit : Option ℕ) (a : Attempt) (user : Text) (m : AuthMethod)
      → Cause limit a user m (continued user m (await_handle russh transport limit a))
  unfolding await_handle
  awaited none a user m = answered none a user m (run a) refl
  awaited (some d) a user m = timed d a user m (timeout d a) refl

  -- Every answer of `connect` has its cause: a handle means that the attempt came through in time
  -- and the server accepted the password or the key; each error names the step that failed, and no
  -- other error comes up.
  pub connect_client-Cause :
      (c : SshConfig)
      → Cause c.connect_timeout (attempt c) c.user c.auth (connect_client russh transport c)
  unfolding connect_client
  connect_client-Cause c = awaited c.connect_timeout (attempt c) c.user c.auth
