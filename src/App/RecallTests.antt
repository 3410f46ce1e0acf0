-- ===== src/App/RecallTests.antt =====
-- Commands that are entered and offered again, on a history in memory.
use tiny_ssh.Base.{
  ℕ, ◌≡◌, ◌⊎◌, refl, none, some, List, [], ◌∷◌, ◌++◌, codes, arith, ok, err, pos, false, inl, inr,
  subst, ◌≤ℤ◌,
}
use tiny_ssh.History
use tiny_ssh.History.{
  HistoryError, record_entry, insert_row, now_unix_secs, row_of, as_str, duration_column, as_i64,
  user,
}
use tiny_ssh.History.Database.{Row}
use tiny_ssh.History.Memory.{
  memory, memory-InsertLaws, memory-QueryLaws, memory-LikeLaws, append_row,
}
use tiny_ssh.History.Recall.{AreOlder}
use tiny_ssh.Keys.{enter}
use tiny_ssh.App.{Shadow}
use tiny_ssh.App.Suggestion.{Place, context, set_suggestion, refresh_suggestion}
use tiny_ssh.App.Input.{apply_code, entry_of, submit}
use tiny_ssh.App.Recall.{enter-recalled}

abbrev place : Place
place = record { host = codes "h"; user = codes "u"; cwd = none }

abbrev shadow : List ℕ → Shadow
shadow input = record {
  shadow_input = input;
  shadow_cursor = 0;
  suggestion = none;
  last_action_was_suggestion = false;
  last_input_was_enter = false;
}

abbrev row : ℕ → List ℕ → ℕ → Row
row id command time = record {
  id = pos id;
  columns = record {
    host = codes "h";
    user = codes "u";
    cwd = none;
    command = command;
    timestamp = pos time;
    exit_code = none;
    duration_ms = none;
    source = codes "user";
  };
}

abbrev before : List Row
before = row 1 (codes "man") 5 ∷ []

abbrev after : List Row
after = before ++ row 2 (codes "make") 7 ∷ []

make_recorded :
    record_entry memory before (some 7) (entry_of place (shadow (codes "make"))) ≡ ok (after, pos 2)
unfolding record_entry insert_row now_unix_secs row_of as_str duration_column as_i64 append_row
    entry_of
make_recorded = refl

before_older : AreOlder before (codes "h") (as_i64 7)
unfolding as_i64
before_older s (inl e) h q =
    let none_later : pos 7 ≤ℤ pos 5 = subst (λ (r : Row). pos 7 ≤ℤ r.timestamp) e q in omega arith
before_older s (inr i) h q = elim i [ ]

enter-recalled_example :
    (apply_code memory place (some 7) false enter (shadow (codes "make")) before
      ≡ some (submit (shadow (codes "make")), after))
    × ((refresh_suggestion memory after place (shadow (codes "ma"))
          ≡ some (set_suggestion (shadow (codes "ma")) (some (codes "ke"))))
        ⊎ ((x : HistoryError) × (History.suggest memory after (context place (codes "ma"))
              ≡ err x)))
enter-recalled_example =
    enter-recalled memory memory-InsertLaws memory-QueryLaws memory-LikeLaws before after 7 place
      false (shadow (codes "make")) (shadow (codes "ma")) (pos 2) (codes "ma") (codes "ke") refl
      (λ e. cc) (λ e. cc) make_recorded before_older refl
