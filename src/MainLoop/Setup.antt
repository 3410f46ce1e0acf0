-- ===== src/MainLoop/Setup.antt =====
-- The steps that make the user's terminal ready (`setup_terminal` of crates/tiny-ssh-cli/src/main.rs),
-- up to the first that fails.
use tiny_ssh.Base.{◌≡◌, refl, ap, Option, none, some, List, [], ◌∷◌, ◌++◌, codes}
use tiny_ssh.Utf8.{Text}
use tiny_ssh.MainLoop.Tui.{Step, enable_raw_mode, enter_screen, new_terminal, attempt}

-- The steps that make the terminal ready, with the errors they are reported by.
abbrev pub setup : List (Step × Text)
setup =
    (enable_raw_mode, codes "enable raw mode")
    ∷ (enter_screen, codes "enter alt screen")
    ∷ (new_terminal, codes "init terminal")
    ∷ []

abbrev pub steps_of : List (Step × Text) → List Step
steps_of [] = []
steps_of ((s, context) ∷ ps) = s ∷ steps_of ps

module _ (failure : Step → Option Text) where
  -- Every step works.
  abbrev pub Work : List Step → Type 0
  Work [] = Unit
  Work (s ∷ ss) = (failure s ≡ none) × Work ss

  -- The steps up to the first that fails, and its error.
  abbrev pub Broken : List (Step × Text) → List Step → Text → Type 0
  Broken ps done context =
      (before : List (Step × Text)) × (s : Step) × (after : List (Step × Text)) × (e : Text) × (ps
        ≡ before ++ (s, context) ∷ after)
      × (done ≡ steps_of before)
      × Work done
      × (failure s ≡ some e)

  abbrev pub Attempted : List (Step × Text) → List Step × Option Text → Type 0
  Attempted ps (done, none) = (done ≡ steps_of ps) × Work done
  Attempted ps (done, some context) = Broken ps done context

  one_more :
      (s : Step) (context : Text) (ps : List (Step × Text)) (r : List Step × Option Text)
      → failure s ≡ none
      → Attempted ps r
      → Attempted ((s, context) ∷ ps) (s ∷ r.0, r.1)
  one_more s context ps (done, none) w (e, ws) = (ap (s ∷◌) e, (w, ws))
  one_more s context ps (done, some c) w (before, t, after, x, e, d, ws, f) =
      ((s, context) ∷ before, t, after, x, ap ((s, context) ∷◌) e, ap (s ∷◌) d, (w, ws), f)

  by_failure :
      (s : Step) (context : Text) (ps : List (Step × Text)) (r : List Step × Option Text)
      (o : Option Text)
      → failure s ≡ o
      → Attempted ps r
      → Attempted
          ((s, context) ∷ ps)
          (elim o [ some e ↦ ([], some context) | none ↦ (s ∷ r.0, r.1) ])
  by_failure s context ps r none w h = one_more s context ps r w h
  by_failure s context ps r (some e) f h = ([], s, ps, e, refl, refl, tt, f)

  pub attempt-Attempted : (ps : List (Step × Text)) → Attempted ps (attempt failure ps)
  unfolding attempt
  attempt-Attempted [] = (refl, tt)
  attempt-Attempted ((s, context) ∷ ps) =
      by_failure s context ps _ (failure s) refl (attempt-Attempted ps)
