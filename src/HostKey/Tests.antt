-- ===== src/HostKey/Tests.antt =====
-- A known_hosts file to which learning appends, beside a file of the user's that has nothing. The
-- keys are numbers, and the even ones and the odd ones are of a kind.
use tiny_ssh.Base.{
  ℕ, ◌≡◌, ◌↔◌, refl, subst, Bool, true, false, List, [], ◌∷◌, ◌==◌, if◌then◌else◌, arith, codes,
  Result, ok, err, ◌≢◌, ◌++◌, ◌%◌, ◌&&◌, equal, equal_iff,
}
use tiny_ssh.Utf8.{Text}
use tiny_ssh.HostKey.{KnownHosts, KeysError, key_changed, reject_unknown, check_server_key}
use tiny_ssh.HostKey.Trust.{LearnLaws, handler, Trusts, check_server_key_iff}

-- The first key of the kind for the host decides.
abbrev look : List (Text × ℕ) → Text → ℕ → Result KeysError Bool
look [] host key = ok false
look ((h, k) ∷ ks) host key =
    let rest = look ks host key in
    if equal h host && k % 2 == key % 2
    then (if k == key then ok true else err (key_changed 1))
    else rest

abbrev one_file : KnownHosts
one_file = record {
  Files = List (Text × ℕ);
  Key = ℕ;
  check_known_hosts = λ files host port key. ok false;
  check_known_hosts_path = λ files host port key path. look files host key;
  learn_known_hosts_path = λ files host port key path. ok (files ++ (host, key) ∷ []);
}

look-learnt :
    (files : List (Text × ℕ)) (host : Text) (key : ℕ)
    → look files host key ≡ ok false
    → look (files ++ (host, key) ∷ []) host key ≡ ok true
look-learnt [] host key h = ground (arith, equal_iff host host)
look-learnt ((h0, k) ∷ files) host key h = ground (arith, look-learnt files host key)

look-pinned :
    (files : List (Text × ℕ)) (host : Text) (key key' : ℕ)
    → key % 2 ≡ key' % 2
    → key' ≢ key
    → look files host key' ≡ ok false
    → look (files ++ (host, key) ∷ []) host key' ≡ err (key_changed 1)
look-pinned [] host key key' kind ne h = ground (arith, equal_iff host host)
look-pinned ((h0, k) ∷ files) host key key' kind ne h =
    ground (arith, look-pinned files host key key' kind ne)

stored :
    (files files' : List (Text × ℕ)) (host : Text) (key : ℕ)
    → one_file.learn_known_hosts_path files host 22 key host ≡ ok files'
    → files ++ (host, key) ∷ [] ≡ files'
stored files files' host key e = cc

abbrev one_file_laws : LearnLaws one_file
one_file_laws = record {
  IsOwn = λ path. Unit {0};
  IsName = λ host. Unit {0};
  SameKind = λ k k'. k % 2 ≡ k' % 2;
  learns = λ files files' host port key path n e silent.
      subst (λ f. look f host key ≡ ok true) (stored files files' host key e)
        (look-learnt files host key silent);
  pins = λ files files' host port key key' path n e kind ne silent. (
    1,
    subst (λ f. look f host key' ≡ err (key_changed 1)) (stored files files' host key e)
        (look-pinned files host key key' kind ne silent),
  );
  keeps = λ files files' host port key key' path own e. refl;
}

abbrev before : List (Text × ℕ)
before = (codes "other", 7) ∷ (codes "h", 4) ∷ []

abbrev behind : List (Text × ℕ)
behind = before ++ (codes "h", 7) ∷ []

check_server_key_iff_example :
    ((check_server_key one_file
        (handler one_file (codes "h") 22 (codes "/k") reject_unknown)
        behind
        7).0
      ≡ ok true)
    ↔ Trusts reject_unknown (ok false) (ok true)
unfolding equal
check_server_key_iff_example =
    check_server_key_iff one_file (codes "h") 22 (codes "/k") reject_unknown behind 7
