-- ===== src/App/Gate.antt =====
-- `can_show_suggestion` of crates/tiny-ssh-cli/src/app.rs: the gate on the ghost text.
use tiny_ssh.Base.{
  ℕ, ◌+◌, ◌-◌, ◌≡◌, ◌↔◌, Bool, true, false, not, ◌&&◌, ◌||◌, Option, none, some, ltb, ◌==◌, arith,
  Option-cases, inl, inr, if◌then◌else◌, length,
}
use tiny_ssh.Utf8.{Text}
use tiny_ssh.Terminal
use tiny_ssh.Terminal.{Vt}
use tiny_ssh.App.{App}

is_some : Option Text → Bool
is_some none = false
is_some (some t) = true

module _ (vt : Vt) where
  -- The `let … else` on the prompt, and what follows it. The subtraction on `u16` is behind its
  -- guard.
  at_prompt : App vt → Option (ℕ × ℕ) → ℕ × ℕ → Bool
  at_prompt app none cur = false
  at_prompt app (some (prompt_col, prompt_row)) (cur_col, cur_row) =
      if Terminal.is_alt_screen vt app.terminal
        || (not (cur_row == prompt_row) || ltb cur_col prompt_col)
      then false
      else length app.shadow_input == cur_col - prompt_col

  unfoldable pub can_show_suggestion : App vt → Bool
  unfolding at_prompt is_some
  can_show_suggestion app =
      is_some app.suggestion && at_prompt app app.prompt_pos (Terminal.cursor vt app.terminal)

  -- The five conditions.
  pub record Showable (app : App vt) : Type 0 where
    pub ghost : Text
    pub has_ghost : app.suggestion ≡ some ghost
    pub prompt : ℕ × ℕ
    pub has_prompt : app.prompt_pos ≡ some prompt
    pub main_screen : Terminal.is_alt_screen vt app.terminal ≡ false
    pub same_row : (Terminal.cursor vt app.terminal).1 ≡ prompt.1
    pub in_step : (Terminal.cursor vt app.terminal).0 ≡ prompt.0 + length app.shadow_input

  -- The ghost text is shown exactly when there is one, a prompt is known, the screen is not the
  -- alternate one, the cursor is on the prompt's row, and it is as many columns behind the prompt
  -- as the buffer has characters.
  pub can_show_suggestion_iff : (app : App vt) → (can_show_suggestion app ≡ true) ↔ Showable app
  unfolding can_show_suggestion
  can_show_suggestion_iff app = (to, from)
    where
      to : can_show_suggestion app ≡ true → Showable app
      to h = elim (Option-cases app.suggestion) [
        | inl n ↦ absurd (ground arith)
        | inr (g, e) ↦ elim (Option-cases app.prompt_pos) [
          | inl n ↦ absurd (ground arith)
          | inr (p, q) ↦ record {
            ghost = g;
            has_ghost = e;
            prompt = p;
            has_prompt = q;
            main_screen = ground arith;
            same_row = ground arith;
            in_step = ground arith;
          }
        ]
      ]

      from : Showable app → can_show_suggestion app ≡ true
      from s = rw (s.has_ghost, s.has_prompt) (ground arith)
