-- ===== src/History.antt =====
-- crates/tiny-ssh-core/src/history.rs: the command history. SQLite (through rusqlite) is the
-- parameter of History/Database; what stands here is what the source does with it. The statements'
-- WHERE clauses are predicates on rows. A score is counted in tenths.
pub mod Database
pub mod Like
pub mod Suggest
pub mod Records
pub mod Recall
pub mod Recent
pub mod Open
pub mod Memory
pub mod Select
pub mod Tests
use tiny_ssh.Base.{
  ℕ, ◌+◌, ◌-◌, ◌%◌, ◌^◌, ◌<◌, Bool, true, false, not, ◌&&◌, ◌||◌, Option, none, some, List, [], ◌∷◌,
  ◌++◌, ltb, ◌==◌, if◌then◌else◌, Result, ok, err, ℤ, pos, negsuc, int_eq, equal, codes,
}
use tiny_ssh.Utf8.{Text}
use Database.{Row, NewRow, Sqlite, SqliteError}

pub data HistorySource : Type 0 where
  user suggest_history suggest_knowledge suggest_llm : HistorySource

unfoldable pub as_str : HistorySource → Text
as_str user = codes "user"
as_str suggest_history = codes "suggest_history"
as_str suggest_knowledge = codes "suggest_knowledge"
as_str suggest_llm = codes "suggest_llm"

unfoldable pub parse : Text → HistorySource
parse s =
    if equal s (codes "suggest_history")
    then suggest_history
    else if equal s (codes "suggest_knowledge")
    then suggest_knowledge
    else if equal s (codes "suggest_llm")
    then suggest_llm
    else user

pub record HistoryEntry : Type 0 where
  pub id : Option ℤ
  pub host : Text
  pub user : Text
  pub cwd : Option Text
  pub command : Text
  pub timestamp : ℤ
  pub exit_code : Option ℤ
  pub duration_ms : Option ℕ
  pub source : HistorySource

pub record SuggestContext : Type 0 where
  pub host : Text
  pub cwd : Option Text
  pub prefix : Text

pub record Suggestion : Type 0 where
  pub command : Text
  pub source_id : ℤ
  pub score : ℕ

pub data HistoryError : Type 0 where
  sqlite : SqliteError → HistoryError
  no_data_dir : HistoryError
  io : Text → HistoryError
  bad_clock : HistoryError

-- `as i64` of a `u64`, and `as u64` of an `i64`.
unfoldable pub as_i64 : ℕ → ℤ
as_i64 n = if ltb n (2 ^ 63) then pos n else negsuc (2 ^ 64 - n - 1)

unfoldable pub as_u64 : ℤ → ℕ
as_u64 (pos n) = n
as_u64 (negsuc n) = 2 ^ 64 - n - 1

-- `score`, in tenths.
unfoldable pub score : Bool → ℕ
score same_cwd = if same_cwd then 9 else 4

-- The loop of `like_escape`.
unfoldable pub like_escape : Text → Text
like_escape [] = []
like_escape (c ∷ cs) =
    if c == b'\\' || c == b'%' || c == b'_' then b'\\' ∷ c ∷ like_escape cs else c ∷ like_escape cs

-- `now_unix_secs`: the clock gives the seconds since the epoch, or nothing before it.
unfoldable pub now_unix_secs : Option ℕ → Result HistoryError ℤ
now_unix_secs none = err bad_clock
now_unix_secs (some secs) = ok (as_i64 secs)

-- `entry.duration_ms.map(|d| d as i64)`, and back.
unfoldable pub duration_column : Option ℕ → Option ℤ
duration_column none = none
duration_column (some d) = some (as_i64 d)

unfoldable pub duration_field : Option ℤ → Option ℕ
duration_field none = none
duration_field (some v) = some (as_u64 v)

-- The parameters of the INSERT, with the timestamp that `record` has decided on.
unfoldable pub row_of : HistoryEntry → ℤ → NewRow
row_of entry ts = record {
  host = entry.host;
  user = entry.user;
  cwd = entry.cwd;
  command = entry.command;
  timestamp = ts;
  exit_code = entry.exit_code;
  duration_ms = duration_column entry.duration_ms;
  source = as_str entry.source;
}

unfoldable pub row_to_entry : Row → HistoryEntry
row_to_entry row = record {
  id = some row.id;
  host = row.host;
  user = row.user;
  cwd = row.cwd;
  command = row.command;
  timestamp = row.timestamp;
  exit_code = row.exit_code;
  duration_ms = duration_field row.duration_ms;
  source = parse row.source;
}

-- `cwd = ?`, which NULL does not satisfy.
unfoldable pub cwd_is : Option Text → Text → Bool
cwd_is none cwd = false
cwd_is (some c) cwd = equal c cwd

abbrev pub from_sqlite {ℓ} : {A : Type ℓ} → Result SqliteError A → Result HistoryError A
from_sqlite (ok a) = ok a
from_sqlite (err e) = err (sqlite e)

module _ (db : Sqlite) where
  open db use {Conn, insert, update_exit_code, query_row, query_map, like}

  unfoldable pub insert_row :
      Conn → HistoryEntry → Result HistoryError ℤ → Result HistoryError (Conn × ℤ)
  insert_row conn entry (err e) = err e
  insert_row conn entry (ok ts) = from_sqlite (insert conn (row_of entry ts))

  -- `History::record`; a timestamp of 0 means now.
  unfoldable pub record_entry : Conn → Option ℕ → HistoryEntry → Result HistoryError (Conn × ℤ)
  record_entry conn clock entry =
      insert_row conn entry
        (if int_eq entry.timestamp (pos 0) then now_unix_secs clock else ok entry.timestamp)

  unfoldable pub set_exit_code : Conn → ℤ → ℤ → Result HistoryError Conn
  set_exit_code conn id exit_code = from_sqlite (update_exit_code conn id exit_code)

  -- The WHERE clause of pass 2, and of pass 1 with the directory.
  unfoldable pub matches_host : SuggestContext → Row → Bool
  matches_host ctx row =
      equal row.host ctx.host
      && like (like_escape ctx.prefix ++ b'%' ∷ []) b'\\' row.command
      && not (equal row.command ctx.prefix)

  unfoldable pub matches_cwd : SuggestContext → Text → Row → Bool
  matches_cwd ctx cwd row = cwd_is row.cwd cwd && matches_host ctx row

  abbrev pub suggestion : Bool → Row → Suggestion
  suggestion same_cwd row = record {
    command = row.command;
    source_id = row.id;
    score = score same_cwd;
  }

  -- Pass 2.
  unfoldable pub pass_host : Conn → SuggestContext → Result HistoryError (Option Suggestion)
  pass_host conn ctx = elim (query_row conn (matches_host ctx)) [
    | err e ↦ err (sqlite e)
    | ok none ↦ ok none
    | ok (some row) ↦ ok (some (suggestion false row))
  ]

  -- Pass 1, which is skipped without a directory, and then pass 2.
  unfoldable pub passes :
      Conn → SuggestContext → Option Text → Result HistoryError (Option Suggestion)
  passes conn ctx none = pass_host conn ctx
  passes conn ctx (some cwd) = elim (query_row conn (matches_cwd ctx cwd)) [
    | err e ↦ err (sqlite e)
    | ok none ↦ pass_host conn ctx
    | ok (some row) ↦ ok (some (suggestion true row))
  ]

  unfoldable pub suggest : Conn → SuggestContext → Result HistoryError (Option Suggestion)
  suggest conn ctx = elim ctx.prefix [ [] ↦ ok none | _ ∷ _ ↦ passes conn ctx ctx.cwd ]

  unfoldable pub map_rows : List Row → List HistoryEntry
  map_rows [] = []
  map_rows (r ∷ rs) = row_to_entry r ∷ map_rows rs

  -- `recent`; a limit is passed on as an `i64`.
  unfoldable pub recent : Conn → Text → ℕ → Result HistoryError (List HistoryEntry)
  unfolding map_rows
  recent conn host limit = elim (query_map conn (λ row. equal row.host host) (as_i64 limit)) [
    | err e ↦ err (sqlite e)
    | ok rows ↦ ok (map_rows rows)
  ]
