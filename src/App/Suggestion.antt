-- ===== src/App/Suggestion.antt =====
-- `refresh_suggestion` of crates/tiny-ssh-cli/src/app.rs: it recomputes the ghost text.
use tiny_ssh.Base.{
  ◌≡◌, ◌≢◌, refl, ◌∙◌, ap, Bool, true, false, ◌&&◌, Option, none, some, [], ◌∷◌, ◌++◌, append-nil,
  ◌>>=◌, ltb, ◌==◌, arith, if◌then◌else◌, Result, ok, err, Bool-cases, inl, inr,
}
use tiny_ssh.Utf8.{Text, len, split_at}
use tiny_ssh.Utf8.Boundary.{split_at-len}
use tiny_ssh.History.{SuggestContext, HistoryError}
use tiny_ssh.History.Database.{Sqlite}
use tiny_ssh.Engine
use tiny_ssh.Engine.{EngineSuggestion}
use tiny_ssh.App.{Shadow}

-- `str::starts_with`.
unfoldable pub starts_with : Text → Text → Bool
starts_with s [] = true
starts_with [] (p ∷ ps) = false
starts_with (c ∷ s) (p ∷ ps) = c == p && starts_with s ps

-- The arm of a command: what it has beyond the buffer. `None` is the panic of the slice.
unfoldable pub ghost_of : Text → Text → Option (Option Text)
ghost_of input command =
    if starts_with command input && ltb (len input) (len command)
    then (do (l, r) ← split_at command (len input); some (some r))
    else some none

-- The `match` on the engine's answer.
unfoldable pub ghost : Text → Result HistoryError (Option EngineSuggestion) → Option (Option Text)
ghost input (err e) = some none
ghost input (ok none) = some none
ghost input (ok (some s)) = ghost_of input s.command

-- The machine that a session is for.
pub record Place : Type 0 where
  pub host : Text
  pub user : Text
  pub cwd : Option Text

abbrev pub context : Place → Text → SuggestContext
context place prefix = record { host = place.host; cwd = place.cwd; prefix = prefix }

abbrev pub set_suggestion : Shadow → Option Text → Shadow
set_suggestion s g = record s { suggestion = g }

refresh_input : (db : Sqlite) → db.Conn → Place → Shadow → Text → Option Shadow
refresh_input db conn place s [] = some (set_suggestion s none)
refresh_input db conn place s (c ∷ cs) = do
  g ← ghost (c ∷ cs) (Engine.suggest db conn (context place (c ∷ cs)))
  some (set_suggestion s g)

unfoldable pub refresh_suggestion : (db : Sqlite) → db.Conn → Place → Shadow → Option Shadow
unfolding refresh_input
refresh_suggestion db conn place s = refresh_input db conn place s s.shadow_input

pub starts_with-append : (p s : Text) → starts_with s p ≡ true → (r : Text) × (s ≡ p ++ r)
unfolding starts_with
starts_with-append [] s h = (s, refl)
starts_with-append (p ∷ ps) [] h = cc
starts_with-append (p ∷ ps) (c ∷ s) h =
    let (r, e) = starts_with-append ps s (ground arith) in (r, ground arith)

extends_proper :
    (input command r : Text) → command ≡ input ++ r → ltb (len input) (len command) ≡ true → r ≢ []
extends_proper input command r e longer n =
    let same : command ≡ input = e ∙ ap (input ++◌) n ∙ append-nil input in
    ground (arith, ap len same)

-- The slice never panics, and a ghost text continues the buffer to the command, and is not empty.
ghost_of-append :
    (input command : Text)
    → (g : Option Text) × (ghost_of input command ≡ some g)
      × ((r : Text) → g ≡ some r → (command ≡ input ++ r) × (r ≢ []))
unfolding ghost_of
ghost_of-append input command =
    elim (Bool-cases (starts_with command input && ltb (len input) (len command))) [
      | inl more ↦
          let (r, e) = starts_with-append input command (ground arith) in
          (
            some r,
            rw more (
                ap (λ t. split_at t (len input) >>= λ p. some (some p.1)) e
                ∙ rw (split_at-len input r)),
            λ t q. (cc, λ n. extends_proper input command r e (ground arith) (cc)),
          )
      | inr less ↦ (none, rw less, λ t q. absurd (ground arith))
    ]

-- What a ghost text of `input` stands for: a command that the engine suggests.
pub record IsGhost (db : Sqlite) (conn : db.Conn) (place : Place) (input ghost : Text)
    : Type 0 where
  pub suggested : EngineSuggestion
  pub by_engine : Engine.suggest db conn (context place input) ≡ ok (some suggested)
  pub continues : suggested.command ≡ input ++ ghost
  pub ghost-ne-nil : ghost ≢ []

-- The state after a refresh: only the ghost text has changed, and it is one.
pub record Refreshed (db : Sqlite) (conn : db.Conn) (place : Place) (s s' : Shadow) : Type 0 where
  pub rest_kept : s' ≡ set_suggestion s s'.suggestion
  pub is_ghost : (g : Text) → s'.suggestion ≡ some g → IsGhost db conn place s.shadow_input g

module _ (db : Sqlite) (conn : db.Conn) (place : Place) where
  ghost_sound :
      (input : Text) (a : Result HistoryError (Option EngineSuggestion))
      → Engine.suggest db conn (context place input) ≡ a
      → (g : Option Text) × (ghost input a ≡ some g)
        × ((t : Text) → g ≡ some t → IsGhost db conn place input t)
  unfolding ghost
  ghost_sound input (err e) q = (none, refl, λ t h. cc)
  ghost_sound input (ok none) q = (none, refl, λ t h. cc)
  ghost_sound input (ok (some s)) q =
      let (g, found, sound) = ghost_of-append input s.command in
      (
        g,
        found,
        λ t h. record {
          suggested = s;
          by_engine = q;
          continues = (sound t h).0;
          ghost-ne-nil = (sound t h).1;
        },
      )

  refresh_input-Refreshed :
      (s : Shadow) (input : Text)
      → s.shadow_input ≡ input
      → (s' : Shadow) × (refresh_input db conn place s input ≡ some s')
        × Refreshed db conn place s s'
  unfolding refresh_input
  refresh_input-Refreshed s [] e =
      (set_suggestion s none, refl, record { rest_kept = refl; is_ghost = λ g h. cc })
  refresh_input-Refreshed s (c ∷ cs) e =
      let (g, found, sound) =
        ghost_sound (c ∷ cs) (Engine.suggest db conn (context place (c ∷ cs))) refl in
      (set_suggestion s g, rw (found, ◌>>=◌), record { rest_kept = refl; is_ghost = rw e sound })

  -- A refresh never panics, and leaves a ghost text only if the engine suggests the command that
  -- the buffer and the ghost text make up.
  pub refresh_suggestion-Refreshed :
      (s : Shadow)
      → (s' : Shadow) × (refresh_suggestion db conn place s ≡ some s')
        × Refreshed db conn place s s'
  unfolding refresh_suggestion
  refresh_suggestion-Refreshed s = refresh_input-Refreshed s s.shadow_input refl
