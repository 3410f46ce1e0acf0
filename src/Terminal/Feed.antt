-- ===== src/Terminal/Feed.antt =====
-- `Terminal::feed` of crates/tiny-ssh-cli/src/term.rs does not depend on how the stream is cut.
use tiny_ssh.Base.{◌≡◌, refl, ◌++◌, Bytes}
use tiny_ssh.Osc.Chunks.{scan-append}
use tiny_ssh.Terminal.{Vt, VtLaws, Terminal, feed}

module _ (vt : Vt) (laws : VtLaws vt) where
  -- Bytes fed in two parts leave the terminal, the scanner and the pending events as if they had
  -- come at once.
  pub feed-append :
      (t : Terminal vt) (xs ys : Bytes) → feed vt t (xs ++ ys) ≡ feed vt (feed vt t xs) ys
  unfolding feed
  feed-append t xs ys =
      rw (laws.advance-append t.parser t.inner xs ys, scan-append xs ys t.osc_scanner t.pending_osc)
        refl
