-- ===== src/History/Tests.antt =====
-- The history on a database in memory.
use tiny_ssh.Base.{
  ℕ, ◌≡◌, refl, Option, none, some, List, [], ◌∷◌, ◌++◌, codes, arith, equal, ok, ℤ, pos, inl, inr,
  ◌≤ℤ◌, subst,
}
use tiny_ssh.Utf8.{Text}
use tiny_ssh.Keys.{to_ascii_lowercase}
use tiny_ssh.History.{
  user, HistoryEntry, SuggestContext, Suggestion, like_escape, score, cwd_is, matches_host,
  matches_cwd, passes, pass_host, suggest, as_i64, record_entry, insert_row, now_unix_secs, row_of,
  as_str, duration_column,
}
use tiny_ssh.History.Database.{NewRow, Row}
use tiny_ssh.History.Like.{begins, pattern_of, like-pattern_of}
use tiny_ssh.History.Suggest.{Outcome, suggest-Outcome}
use tiny_ssh.History.Records.{Stored, record_entry-Stored}
use tiny_ssh.History.Database.{set_code}
use tiny_ssh.History.{set_exit_code, recent}
use tiny_ssh.History.Records.{stored}
use tiny_ssh.History.Recall.{AreOlder}
use tiny_ssh.History.Recent.{BeginsWith, recent-recorded}
use tiny_ssh.History.Select.{memory-SelectLaws, memory-UpdateLaws}
use tiny_ssh.History.Memory.{
  memory, memory-QueryLaws, memory-InsertLaws, memory-LikeLaws, like, newest_row, append_row,
  match_char, match_any, match_suffix, is_nil, newer,
}

abbrev columns : Option Text → Text → ℕ → NewRow
columns cwd command time = record {
  host = codes "h";
  user = codes "u";
  cwd = cwd;
  command = command;
  timestamp = pos time;
  exit_code = none;
  duration_ms = none;
  source = codes "user";
}

abbrev pub rows : List Row
rows =
    record { id = pos 1; columns = columns (some (codes "/a")) (codes "make build") 100 }
    ∷ record { id = pos 2; columns = columns (some (codes "/b")) (codes "make test") 200 }
    ∷ []

abbrev here : Option Text → SuggestContext
here cwd = record { host = codes "h"; cwd = cwd; prefix = codes "make " }

abbrev in_a : Suggestion
in_a = record { command = codes "make build"; source_id = pos 1; score = 9 }

suggest_in_a : suggest memory rows (here (some (codes "/a"))) ≡ ok (some in_a)
unfolding suggest passes pass_host matches_cwd matches_host cwd_is like_escape equal like match_char
    match_any match_suffix is_nil newest_row newer score to_ascii_lowercase
suggest_in_a = refl

suggest_in_c :
    suggest memory rows (here (some (codes "/c")))
    ≡ ok (some (record { command = codes "make test"; source_id = pos 2; score = 4 }))
unfolding suggest_in_a
suggest_in_c = refl

suggest-Outcome_example :
    Outcome memory memory-QueryLaws memory-LikeLaws rows (here (some (codes "/a"))) (some in_a)
suggest-Outcome_example =
    suggest-Outcome memory memory-QueryLaws memory-LikeLaws rows (here (some (codes "/a")))
      (some in_a) (λ e. cc) suggest_in_a

like-pattern_of_example :
    like (pattern_of (codes "100%")) b'\\' (codes "100% x") ≡ begins (codes "100%") (codes "100% x")
like-pattern_of_example = like-pattern_of memory memory-LikeLaws (codes "100%") (codes "100% x")

abbrev entry : HistoryEntry
entry = record {
  id = none;
  host = codes "h";
  user = codes "u";
  cwd = none;
  command = codes "ls";
  timestamp = pos 0;
  exit_code = none;
  duration_ms = some 5;
  source = user;
}

abbrev ls_row : Row
ls_row = record {
  id = pos 3;
  columns = record (columns none (codes "ls") 300) { duration_ms = some (pos 5) };
}

record_ls : record_entry memory rows (some 300) entry ≡ ok (rows ++ ls_row ∷ [], pos 3)
unfolding record_entry insert_row now_unix_secs row_of as_str duration_column as_i64 append_row
record_ls = refl

record_entry-Stored_example :
    (ts : ℤ) × Stored memory memory-InsertLaws rows
      (rows ++ ls_row ∷ [])
      (some 300)
      entry
      (pos 3)
      ts
record_entry-Stored_example =
    record_entry-Stored memory memory-InsertLaws rows (rows ++ ls_row ∷ []) (some 300) entry (pos 3)
      (omega arith) record_ls

rows_older : AreOlder rows (codes "h") (as_i64 300)
unfolding as_i64
rows_older s (inl e) h q =
    let none_later : pos 300 ≤ℤ pos 100 = subst (λ (r : Row). pos 300 ≤ℤ r.timestamp) e q in
    omega arith
rows_older s (inr (inl e)) h q =
    let none_later : pos 300 ≤ℤ pos 200 = subst (λ (r : Row). pos 300 ≤ℤ r.timestamp) e q in
    omega arith
rows_older s (inr (inr i)) h q = elim i [ ]

abbrev coded_rows : List Row
coded_rows =
    rows
    ++ record { id = pos 3; columns = record (ls_row.columns) { exit_code = some (pos 1) } } ∷ []

ls-coded : set_exit_code memory (rows ++ ls_row ∷ []) (pos 3) (pos 1) ≡ ok coded_rows
unfolding set_exit_code set_code
ls-coded = refl

recent-recorded_example :
    BeginsWith
      (recent memory coded_rows (codes "h") 10)
      (record (stored entry (pos 3) (as_i64 300)) { exit_code = some (pos 1) })
recent-recorded_example =
    recent-recorded memory memory-InsertLaws memory-UpdateLaws memory-SelectLaws rows
      (rows ++ ls_row ∷ []) coded_rows 300 entry (pos 3) (pos 1) 10 (omega arith) refl record_ls
      rows_older ls-coded (omega arith)
