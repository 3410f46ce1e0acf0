-- ===== src/Engine.antt =====
-- crates/tiny-ssh-core/src/suggest.rs: the engine, which delegates to the history.
use tiny_ssh.Base.{ℕ, Option, none, some, Result, ok, err}
use tiny_ssh.Utf8.{Text}
use tiny_ssh.History
use tiny_ssh.History.{SuggestContext, Suggestion, HistoryError}
use tiny_ssh.History.Database.{Sqlite}

pub data Provenance : Type 0 where
  from_user_history knowledge llm : Provenance

pub record EngineSuggestion : Type 0 where
  pub command : Text
  pub provenance : Provenance
  pub score : ℕ

unfoldable pub from_history : Suggestion → EngineSuggestion
from_history s = record { command = s.command; provenance = from_user_history; score = s.score }

unfoldable pub suggest :
    (db : Sqlite) → db.Conn → SuggestContext → Result HistoryError (Option EngineSuggestion)
suggest db conn ctx = elim (History.suggest db conn ctx) [
  | err e ↦ err e
  | ok none ↦ ok none
  | ok (some s) ↦ ok (some (from_history s))
]
