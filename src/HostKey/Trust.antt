-- ===== src/HostKey/Trust.antt =====
-- Which keys are accepted.
use tiny_ssh.Base.{◌≡◌, ◌≢◌, ◌⊎◌, ◌↔◌, refl, ℕ, Bool, true, false, Result, ok, err, inl, inr}
use tiny_ssh.Utf8.{Text}
use tiny_ssh.HostKey.{
  KeysError, key_changed, other, KnownHosts, TofuPolicy, accept_on_first, reject_unknown,
  known_hosts, ClientHandler, on_unknown_host, own_file, check_files, check_server_key,
}

-- A file answers that it has the key.
abbrev pub Has : Result KeysError Bool → Type 0
Has r = r ≡ ok true

-- Neither has the key nor another for the host.
abbrev pub IsSilent : Result KeysError Bool → Type 0
IsSilent (ok true) = ⊥
IsSilent (err (key_changed line)) = ⊥
IsSilent _ = Unit

-- The key is in the user's file; or that is silent, and it is in tssh's own file or may be learned.
abbrev pub Trusts : TofuPolicy → Result KeysError Bool → Result KeysError Bool → Type 0
Trusts unknown user own =
    Has user ⊎ (IsSilent user × (Has own ⊎ (IsSilent own × (unknown ≡ accept_on_first))))

-- `learn_known_hosts_path` appends a line. A file that was read and had no key of its kind for the
-- host then has the key, and another key of the kind, for which it had none either, is changed. The
-- user's own file stays as it is. `IsName` are the hosts that a line can hold.
pub record LearnLaws (kh : KnownHosts) : Type 1 where
  pub IsOwn : Text → Type 0
  pub IsName : Text → Type 0
  pub SameKind : kh.Key → kh.Key → Type 0
  pub learns :
      (files files' : kh.Files) (host : Text) (port : ℕ) (key : kh.Key) (path : Text)
      → IsName host
      → kh.learn_known_hosts_path files host port key path ≡ ok files'
      → kh.check_known_hosts_path files host port key path ≡ ok false
      → kh.check_known_hosts_path files' host port key path ≡ ok true
  pub pins :
      (files files' : kh.Files) (host : Text) (port : ℕ) (key key' : kh.Key) (path : Text)
      → IsName host
      → kh.learn_known_hosts_path files host port key path ≡ ok files'
      → SameKind key key'
      → key' ≢ key
      → kh.check_known_hosts_path files host port key' path ≡ ok false
      → (line : ℕ) × (kh.check_known_hosts_path files' host port key' path ≡ err (key_changed line))
  pub keeps :
      (files files' : kh.Files) (host : Text) (port : ℕ) (key key' : kh.Key) (path : Text)
      → IsOwn path
      → kh.learn_known_hosts_path files host port key path ≡ ok files'
      → kh.check_known_hosts files' host port key' ≡ kh.check_known_hosts files host port key'

module _ (kh : KnownHosts) where
  open kh use {Files, Key, check_known_hosts, check_known_hosts_path, learn_known_hosts_path}

  unknown_iff :
      (h : ClientHandler) (path : Text) (unknown : TofuPolicy) (files : Files) (key : Key)
      → ((on_unknown_host kh h path unknown files key).0 ≡ ok true) ↔ (unknown ≡ accept_on_first)
  unfolding on_unknown_host
  unknown_iff h path accept_on_first files key = (λ e. refl, λ e. refl)
  unknown_iff h path reject_unknown files key = (λ e. cc, λ e. cc)

  own_file_iff :
      (h : ClientHandler) (path : Text) (unknown : TofuPolicy) (files : Files) (key : Key)
      (own : Result KeysError Bool)
      → check_known_hosts_path files h.host h.port key path ≡ own
      → ((own_file kh h path unknown files key).0 ≡ ok true)
        ↔ (Has own ⊎ (IsSilent own × (unknown ≡ accept_on_first)))
  unfolding own_file
  own_file_iff h path unknown files key (ok true) e = rw (own_file, e) (λ q. inl refl, λ q. refl)
  own_file_iff h path unknown files key (ok false) e =
      let (to, from) = unknown_iff h path unknown files key in
      rw (own_file, e) (λ q. inr (tt, to q), λ q. elim q [ inl p ↦ cc | inr p ↦ from p.1 ])
  own_file_iff h path unknown files key (err (key_changed line)) e =
      rw (own_file, e) (λ q. cc, λ q. elim q [ inl p ↦ cc | inr p ↦ elim p.0 [ ] ])
  own_file_iff h path unknown files key (err (other msg)) e =
      let (to, from) = unknown_iff h path unknown files key in
      rw (own_file, e) (λ q. inr (tt, to q), λ q. elim q [ inl p ↦ cc | inr p ↦ from p.1 ])

  check_files_iff :
      (h : ClientHandler) (path : Text) (unknown : TofuPolicy) (files : Files) (key : Key)
      (user : Result KeysError Bool)
      → check_known_hosts files h.host h.port key ≡ user
      → ((check_files kh h path unknown files key).0 ≡ ok true)
        ↔ Trusts unknown user (check_known_hosts_path files h.host h.port key path)
  unfolding check_files
  check_files_iff h path unknown files key (ok true) e =
      rw (check_files, e) (λ q. inl refl, λ q. refl)
  check_files_iff h path unknown files key (ok false) e =
      let (to, from) = own_file_iff h path unknown files key _ refl in
      rw (check_files, e) (λ q. inr (tt, to q), λ q. elim q [ inl p ↦ cc | inr p ↦ from p.1 ])
  check_files_iff h path unknown files key (err (key_changed line)) e =
      rw (check_files, e) (λ q. cc, λ q. elim q [ inl p ↦ cc | inr p ↦ elim p.0 [ ] ])
  check_files_iff h path unknown files key (err (other msg)) e =
      let (to, from) = own_file_iff h path unknown files key _ refl in
      rw (check_files, e) (λ q. inr (tt, to q), λ q. elim q [ inl p ↦ cc | inr p ↦ from p.1 ])

  -- A client of a host that checks against files.
  abbrev pub handler : Text → ℕ → Text → TofuPolicy → ClientHandler
  handler host port path unknown = record {
    policy = known_hosts path unknown;
    host = host;
    port = port;
  }

  -- With known_hosts files, a key is accepted exactly when the user's file has it; or that file is
  -- silent on it, and tssh's own file has it, or is silent too and unknown hosts are accepted. A
  -- changed key is never accepted.
  pub check_server_key_iff :
      (host : Text) (port : ℕ) (path : Text) (unknown : TofuPolicy) (files : Files) (key : Key)
      → ((check_server_key kh (handler host port path unknown) files key).0 ≡ ok true)
        ↔ Trusts unknown
            (check_known_hosts files host port key)
            (check_known_hosts_path files host port key path)
  unfolding check_server_key
  check_server_key_iff host port path unknown files key =
      check_files_iff (handler host port path unknown) path unknown files key _ refl

  module _ (laws : LearnLaws kh) where
    open laws use {IsOwn, IsName, SameKind}

    -- A host on first contact, whose key goes into tssh's own file, which is read.
    pub record FirstContact (host : Text) (port : ℕ) (path : Text) (files files' : Files)
        (key : Key) : Type 0 where
      pub is_own : IsOwn path
      pub user_silent : IsSilent (check_known_hosts files host port key)
      pub is_name : IsName host
      pub own_silent : check_known_hosts_path files host port key path ≡ ok false
      pub learnt : learn_known_hosts_path files host port key path ≡ ok files'
