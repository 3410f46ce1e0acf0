-- ===== src/HostKey.antt =====
-- `check_server_key` of crates/tiny-ssh-core/src/transport/ssh/client.rs and the policies of
-- config.rs. The known_hosts files of `russh_keys` are the parameter `KnownHosts`.
pub mod Trust
pub mod Tests
use tiny_ssh.Base.{ℕ, Bool, true, false, Option, none, some, Result, ok, err}
use tiny_ssh.Utf8.{Text}

-- Errors of `russh_keys`; `other` stands for all but a changed key.
pub data KeysError : Type 0 where
  key_changed : ℕ → KeysError
  other : Text → KeysError

-- The files, what a check of a host's key answers, and the files with a key more.
pub record KnownHosts : Type 1 where
  pub Files : Type 0
  pub Key : Type 0
  pub check_known_hosts : Files → Text → ℕ → Key → Result KeysError Bool
  pub check_known_hosts_path : Files → Text → ℕ → Key → Text → Result KeysError Bool
  pub learn_known_hosts_path : Files → Text → ℕ → Key → Text → Result KeysError Files

pub data TofuPolicy : Type 0 where
  accept_on_first reject_unknown : TofuPolicy

pub data HostKeyPolicy : Type 0 where
  known_hosts : Text → TofuPolicy → HostKeyPolicy
  accept_any : HostKeyPolicy

-- With the path that `ProjectDirs` answers.
unfoldable pub default_known_hosts : Option Text → HostKeyPolicy
default_known_hosts (some path) = known_hosts path accept_on_first
default_known_hosts none = accept_any

pub record ClientHandler : Type 0 where
  pub policy : HostKeyPolicy
  pub host : Text
  pub port : ℕ

-- The errors that a check ends with.
pub data CheckError : Type 0 where
  changed : ℕ → CheckError
  unknown_key : CheckError

module _ (kh : KnownHosts) where
  open kh use {Files, Key, check_known_hosts, check_known_hosts_path, learn_known_hosts_path}

  -- A key that cannot be recorded is accepted without.
  unfoldable pub learned : Files → Result KeysError Files → Files
  learned files (ok files') = files'
  learned files (err e) = files

  -- An unknown host.
  unfoldable pub on_unknown_host :
      ClientHandler → Text → TofuPolicy → Files → Key → Result CheckError Bool × Files
  on_unknown_host h path accept_on_first files key =
      (ok true, learned files (learn_known_hosts_path files h.host h.port key path))
  on_unknown_host h path reject_unknown files key = (err unknown_key, files)

  -- Pass 2: tssh's own file.
  unfoldable pub own_file :
      ClientHandler → Text → TofuPolicy → Files → Key → Result CheckError Bool × Files
  own_file h path unknown files key = elim (check_known_hosts_path files h.host h.port key path) [
    | ok true ↦ (ok true, files)
    | err (key_changed line) ↦ (err (changed line), files)
    | ok false ↦ on_unknown_host h path unknown files key
    | err (other e) ↦ on_unknown_host h path unknown files key
  ]

  -- Pass 1: the user's OpenSSH file, and then pass 2.
  unfoldable pub check_files :
      ClientHandler → Text → TofuPolicy → Files → Key → Result CheckError Bool × Files
  check_files h path unknown files key = elim (check_known_hosts files h.host h.port key) [
    | ok true ↦ (ok true, files)
    | err (key_changed line) ↦ (err (changed line), files)
    | ok false ↦ own_file h path unknown files key
    | err (other e) ↦ own_file h path unknown files key
  ]

  unfoldable pub check_server_key : ClientHandler → Files → Key → Result CheckError Bool × Files
  check_server_key h files key = elim h.policy [
    | accept_any ↦ (ok true, files)
    | known_hosts path unknown ↦ check_files h path unknown files key
  ]
