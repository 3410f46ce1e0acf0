-- ===== src/History/Open.antt =====
-- Opening the database of crates/tiny-ssh-core/src/history.rs. Directories, files and connections are
-- the parameter `Disk`.
pub mod Outcome
pub mod Tests
use tiny_ssh.Base.{◌≡◌, refl, ◌∙◌, Option, none, some, List, [], ◌∷◌, ◌++◌, codes, Result, ok, err}
use tiny_ssh.Utf8.{Text}
use tiny_ssh.History.{HistoryError, sqlite, no_data_dir, io, from_sqlite}
use tiny_ssh.History.Database.{Row, Sqlite, SqliteError}

-- `data_dir` is that of `ProjectDirs::from("io", "tinyssh", "tssh")`.
pub record Disk (db : Sqlite) : Type 1 where
  pub FilePath : Type 0
  pub data_dir : Option FilePath
  pub join : FilePath → Text → FilePath
  pub parent : FilePath → Option FilePath
  pub create_dir_all : FilePath → Result Text (Unit {0})
  pub connect : FilePath → Result SqliteError (db.Conn)
  pub connect_in_memory : Result SqliteError (db.Conn)
  pub pragma_update : db.Conn → Text → Text → Result SqliteError (db.Conn)
  pub execute_batch : db.Conn → Text → Result SqliteError (db.Conn)

-- The lines of `SCHEMA`.
abbrev pub schema_lines : List Text
schema_lines =
    codes ""
    ∷ codes "CREATE TABLE IF NOT EXISTS history ("
    ∷ codes "    id           INTEGER PRIMARY KEY AUTOINCREMENT,"
    ∷ codes "    host         TEXT    NOT NULL,"
    ∷ codes "    user         TEXT    NOT NULL,"
    ∷ codes "    cwd          TEXT,"
    ∷ codes "    command      TEXT    NOT NULL,"
    ∷ codes "    timestamp    INTEGER NOT NULL,"
    ∷ codes "    exit_code    INTEGER,"
    ∷ codes "    duration_ms  INTEGER,"
    ∷ codes "    source       TEXT    NOT NULL DEFAULT 'user'"
    ∷ codes ");"
    ∷ codes ""
    ∷ codes
        "CREATE INDEX IF NOT EXISTS idx_history_host_ts        ON history (host, timestamp DESC);"
    ∷ codes "CREATE INDEX IF NOT EXISTS idx_history_host_cmd       ON history (host, command);"
    ∷ codes "CREATE INDEX IF NOT EXISTS idx_history_host_cwd_cmd   ON history (host, cwd, command);"
    ∷ []

-- Each line with its end.
unfoldable pub lines_text : List Text → Text
lines_text [] = []
lines_text (l ∷ ls) = l ++ (b'\n' ∷ lines_text ls)

unfoldable pub schema : Text
schema = lines_text schema_lines

-- `?` on an answer.
unfoldable pub and_then : {A B E F : Type 0} → (E → F) → Result E A → (A → Result F B) → Result F B
and_then f (ok a) k = k a
and_then f (err e) k = err (f e)

module _ (db : Sqlite) (disk : Disk db) where
  open db use {Conn}
  open disk use {
    FilePath, data_dir, join, parent, create_dir_all, connect, connect_in_memory, pragma_update,
    execute_batch,
  }

  unfoldable pub default_db_path : Result HistoryError FilePath
  default_db_path = elim data_dir [
    | none ↦ err no_data_dir
    | some dir ↦ ok (join dir (codes "history.sqlite"))
  ]

  unfoldable pub open_path : FilePath → Result HistoryError Conn
  open_path path = and_then sqlite (connect path) (λ c.
      and_then sqlite (pragma_update c (codes "journal_mode") (codes "WAL")) (λ c'.
        and_then sqlite (pragma_update c' (codes "synchronous") (codes "NORMAL"))
          (λ c''. from_sqlite (execute_batch c'' schema))))

  unfoldable pub open_in_memory : Result HistoryError Conn
  open_in_memory = and_then sqlite connect_in_memory (λ c. from_sqlite (execute_batch c schema))

  -- The directory of the file, if it has one.
  unfoldable pub create_parent : Option FilePath → Result HistoryError (Unit {0})
  create_parent none = ok tt
  create_parent (some dir) = and_then io (create_dir_all dir) (λ u. ok u)

  unfoldable pub open_default : Result HistoryError Conn
  open_default =
      and_then (λ e. e) default_db_path
        (λ path. and_then (λ e. e) (create_parent (parent path)) (λ u. open_path path))
