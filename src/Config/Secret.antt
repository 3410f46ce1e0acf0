-- ===== src/Config/Secret.antt =====
-- What a log of the configuration reveals of its secrets.
use tiny_ssh.Base.{◌≡◌, refl, Option, none, some}
use tiny_ssh.Utf8.{Text}
use tiny_ssh.Config.{
  AuthMethod, password, public_key, SshConfig, Debug, redacted, debug_auth, debug_config,
}

-- Two optional secrets, both there or neither.
abbrev pub BothOrNone : Option Text → Option Text → Type 0
BothOrNone none none = Unit
BothOrNone (some p) (some q) = Unit
BothOrNone _ _ = ⊥

-- Two ways to authenticate that differ in their secrets at most.
abbrev pub Alike : AuthMethod → AuthMethod → Type 0
Alike (password p) (password q) = Unit
Alike (public_key path p) (public_key path' q) = (path ≡ path') × BothOrNone p q
Alike _ _ = ⊥

module _ (d : Debug) where
  redacted-Alike : (p q : Option Text) → BothOrNone p q → redacted d p ≡ redacted d q
  unfolding redacted
  redacted-Alike none none h = refl
  redacted-Alike (some p) (some q) h = refl
  redacted-Alike none (some q) h = elim h [ ]
  redacted-Alike (some p) none h = elim h [ ]

  debug_auth-Alike : (a b : AuthMethod) → Alike a b → debug_auth d a ≡ debug_auth d b
  unfolding debug_auth
  debug_auth-Alike (password p) (password q) h = refl
  debug_auth-Alike (public_key path p) (public_key path' q) h =
      rw (h.0, redacted-Alike p q h.1) refl
  debug_auth-Alike (password p) (public_key path q) h = elim h [ ]
  debug_auth-Alike (public_key path p) (password q) h = elim h [ ]

  -- What is logged of a configuration does not depend on the password or the passphrase in it, only
  -- on whether there is a passphrase.
  pub debug_config-Alike :
      (c : SshConfig) (a : AuthMethod)
      → Alike c.auth a
      → debug_config d c ≡ debug_config d (record c { auth = a })
  unfolding debug_config
  debug_config-Alike c a h = rw (debug_config, debug_auth-Alike c.auth a h) refl
