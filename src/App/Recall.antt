-- ===== src/App/Recall.antt =====
-- A command that the user enters is the ghost text of its beginning: `Enter` of `apply_to_shadow`,
-- and then `refresh_suggestion`, of crates/tiny-ssh-cli/src/app.rs.
use tiny_ssh.Base.{
  ℕ, ◌<◌, ◌≡◌, ◌≢◌, ◌⊎◌, refl, sym, ◌∙◌, ap, Bool, true, Option, some, [], ◌∷◌, ◌++◌, ◌>>=◌, arith,
  ok, err, ℤ, inl, inr, ltb, lt→ltb,
}
use tiny_ssh.Utf8.{Text, len, len_utf8}
use tiny_ssh.Utf8.Boundary.{split_at-len, len-append}
use tiny_ssh.Keys.{enter}
use tiny_ssh.History
use tiny_ssh.History.{HistoryError, HistoryEntry, Suggestion, as_i64, record_entry}
use tiny_ssh.History.Database.{Sqlite, InsertLaws, QueryLaws, LikeLaws}
use tiny_ssh.History.Like.{begins}
use tiny_ssh.History.Recall.{AreOlder, Fits, suggest-recorded}
use tiny_ssh.Engine
use tiny_ssh.Engine.{from_history}
use tiny_ssh.App.{Shadow}
use tiny_ssh.App.Suggestion.{
  Place, context, set_suggestion, ghost, ghost_of, starts_with, refresh_suggestion,
}
use tiny_ssh.App.Input.{apply_code, entry_of, record_command, submit}

begins-append : (p r : Text) → begins p (p ++ r) ≡ true
unfolding begins
begins-append [] r = refl
begins-append (c ∷ p) r = ground (arith, begins-append p r)

starts_with-beginning : (p r : Text) → starts_with (p ++ r) p ≡ true
unfolding starts_with
starts_with-beginning [] r = refl
starts_with-beginning (c ∷ p) r = ground (arith, starts_with-beginning p r)

len-positive : (r : Text) → r ≢ [] → 0 < len r
unfolding len len_utf8
len-positive [] n = absurd (n refl)
len-positive (c ∷ r) n = ground arith

beyond : (p r : Text) → r ≢ [] → p ++ r ≢ p
beyond p r n e = omega (arith, ap len e, len-append p r, len-positive r n)

nil_behind : (p r : Text) → p ++ r ≡ [] → r ≡ []
nil_behind [] r e = e
nil_behind (c ∷ p) r e = cc

-- The ghost text of a beginning of a command is the rest of it.
ghost_of-rest : (p r : Text) → r ≢ [] → ghost_of p (p ++ r) ≡ some (some r)
unfolding ghost_of
ghost_of-rest p r n =
    let longer : ltb (len p) (len (p ++ r)) ≡ true =
      lt→ltb (len p) (len (p ++ r)) (omega (arith, len-append p r, len-positive r n)) in
    rw (starts_with-beginning p r, longer, split_at-len p r, ◌>>=◌) refl

module _ (db : Sqlite) (inserts : InsertLaws db) (queries : QueryLaws db)
    (likes : LikeLaws db) where
  open db use {Conn, table}

  engine_recalled :
      (c : Conn) (place : Place) (p : Text) (s : Suggestion)
      → History.suggest db c (context place p) ≡ ok (some s)
      → Engine.suggest db c (context place p) ≡ ok (some (from_history s))
  unfolding Engine.suggest
  engine_recalled c place p s h = rw (Engine.suggest, h) refl

  refresh-rest :
      (c : Conn) (place : Place) (t : Shadow) (p r : Text) (s : Suggestion)
      → t.shadow_input ≡ p
      → p ≢ []
      → r ≢ []
      → s.command ≡ p ++ r
      → History.suggest db c (context place p) ≡ ok (some s)
      → refresh_suggestion db c place t ≡ some (set_suggestion t (some r))
  unfolding refresh_suggestion ghost from_history
  refresh-rest c place t [] r s i np nr e h = absurd (np refl)
  refresh-rest c place t (x ∷ p) r s i np nr e h =
      let answered = engine_recalled c place (x ∷ p) s h in
      let rest = ap (ghost_of (x ∷ p)) e ∙ ghost_of-rest (x ∷ p) r nr in
      rw i (rw (answered, rest, ◌>>=◌) refl)

  record_command-recorded :
      (c c' : Conn) (clock : Option ℕ) (place : Place) (s : Shadow) (id : ℤ) (command : Text)
      → command ≢ []
      → record_entry db c clock (entry_of place s) ≡ ok (c', id)
      → record_command db c clock place s command ≡ c'
  unfolding record_command
  record_command-recorded c c' clock place s id [] n h = absurd (n refl)
  record_command-recorded c c' clock place s id (x ∷ xs) n h = rw (record_command, h) refl

  -- The entry of a command fits a beginning of it in its place.
  entry_of-Fits :
      (place : Place) (s : Shadow) (p r : Text)
      → s.shadow_input ≡ p ++ r
      → r ≢ []
      → Fits (context place p) (entry_of place s)
  unfolding entry_of
  entry_of-Fits place s p r i nr = record {
    same_host = refl;
    same_cwd = refl;
    prefix-begins = ap (begins p) i ∙ begins-append p r;
    goes_beyond = λ e. beyond p r nr (sym i ∙ e);
  }

  -- `Enter` with a command that the database takes, while the clock is ahead of every row of the
  -- host: the command is recorded; and over the history as that leaves it, the ghost text of each
  -- proper beginning of the command, if it is not empty and typed in the same place, is the rest of
  -- the command, unless a query of the database fails.
  pub enter-recalled :
      (c c' : Conn) (secs : ℕ) (place : Place) (ctrl : Bool) (s t : Shadow) (id : ℤ) (p r : Text)
      → s.shadow_input ≡ p ++ r
      → p ≢ []
      → r ≢ []
      → record_entry db c (some secs) (entry_of place s) ≡ ok (c', id)
      → AreOlder (table c) place.host (as_i64 secs)
      → t.shadow_input ≡ p
      → (apply_code db place (some secs) ctrl enter s c ≡ some (submit s, c'))
        × ((refresh_suggestion db c' place t ≡ some (set_suggestion t (some r)))
            ⊎ ((x : HistoryError) × (History.suggest db c' (context place p) ≡ err x)))
  unfolding apply_code entry_of
  enter-recalled c c' secs place ctrl s t id p r i np nr written older typed = (
    rw
        (record_command-recorded c c' (some secs) place s id s.shadow_input
          (λ e. nr (nil_behind p r (sym i ∙ e))) written)
        refl,
    elim (suggest-recorded db inserts queries likes c c' secs (entry_of place s) id
        (context place p) refl written older np (entry_of-Fits place s p r i nr)) [
          | inl h ↦ inl (refresh-rest c' place t p r _ typed np nr i h)
          | inr failed ↦ inr failed
        ],
  )
