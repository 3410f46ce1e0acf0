-- ===== src/History/Database.antt =====
-- What history.rs relies on of SQLite, through rusqlite: a table of rows behind a connection, and
-- the operator LIKE.
use tiny_ssh.Base.{
  ℕ, ◌≡◌, ◌≢◌, Bool, true, false, ◌&&◌, Option, none, some, List, [], ◌∷◌, ◌++◌, ◌==◌, Result, ok,
  In, ℤ, ◌≤ℤ◌, int_eq, pos, negsuc, ◌⊎◌, ◌<◌, ◌≤◌, All, map, length, if◌then◌else◌,
}
use tiny_ssh.Utf8.{Text}
use tiny_ssh.Keys.{to_ascii_lowercase}

-- The columns of the table `history`; NULL is `none`.
pub record NewRow : Type 0 where
  pub host : Text
  pub user : Text
  pub cwd : Option Text
  pub command : Text
  pub timestamp : ℤ
  pub exit_code : Option ℤ
  pub duration_ms : Option ℤ
  pub source : Text

pub record Row : Type 0 where
  pub id : ℤ
  pub columns : NewRow
  pub open columns use *

-- A failed statement, by its code.
pub data SqliteError : Type 0 where
  failure : ℕ → SqliteError

-- The operations of a connection that the source calls. `query_row` is a SELECT with a WHERE
-- clause, `ORDER BY timestamp DESC LIMIT 1` and `optional()`; `query_map` has another limit, where
-- a negative one is none.
pub record Sqlite : Type 1 where
  pub Conn : Type 0
  pub table : Conn → List Row
  pub insert : Conn → NewRow → Result SqliteError (Conn × ℤ)
  pub update_exit_code : Conn → ℤ → ℤ → Result SqliteError Conn
  pub query_row : Conn → (Row → Bool) → Result SqliteError (Option Row)
  pub query_map : Conn → (Row → Bool) → ℤ → Result SqliteError (List Row)
  pub like : Text → ℕ → Text → Bool

-- A row behind `SET exit_code = ? WHERE id = ?`.
unfoldable pub set_code : ℤ → ℤ → Row → Row
set_code id code row =
    if int_eq row.id id
    then record row { columns = record (row.columns) { exit_code = some code } }
    else row

-- `ORDER BY timestamp DESC`.
abbrev pub IsDescending : List Row → Type 0
IsDescending [] = Unit
IsDescending (r ∷ rs) = All (λ s. s.timestamp ≤ℤ r.timestamp) rs × IsDescending rs

-- The limit is not reached; a negative one is none.
abbrev pub HasRoom : ℤ → List Row → Type 0
HasRoom (pos n) rows = length rows < n
HasRoom (negsuc n) rows = Unit

module _ (db : Sqlite) where
  open db use {Conn, table, insert, update_exit_code, query_row, query_map, like}

  -- The documented behaviour of the queries.
  pub record QueryLaws : Type 0 where
    pub found :
        (c : Conn) (p : Row → Bool) (r : Row)
        → query_row c p ≡ ok (some r)
        → In r (table c)
          × (p r ≡ true)
          × ((s : Row) → In s (table c) → p s ≡ true → s.timestamp ≤ℤ r.timestamp)
    pub not_found :
        (c : Conn) (p : Row → Bool)
        → query_row c p ≡ ok none
        → (s : Row) → In s (table c)
        → p s ≡ false

  -- An inserted row stands in the table under its id, beside all that was there.
  pub record InsertLaws : Type 0 where
    pub inserted :
        (c : Conn) (n : NewRow) (c' : Conn) (id : ℤ)
        → insert c n ≡ ok (c', id)
        → table c' ≡ table c ++ (record { id = id; columns = n }) ∷ []

  -- An UPDATE sets the exit code of the rows with the id.
  pub record UpdateLaws : Type 0 where
    pub updated :
        (c : Conn) (id code : ℤ) (c' : Conn)
        → update_exit_code c id code ≡ ok c'
        → table c' ≡ map (set_code id code) (table c)

  -- A SELECT answers rows of the table that pass the test, newest first and within the limit; what
  -- it leaves out is no newer, and it leaves out nothing while there is room.
  pub record SelectLaws : Type 0 where
    pub answered :
        (c : Conn) (p : Row → Bool) (limit : ℤ) (rows : List Row)
        → query_map c p limit ≡ ok rows
        → (r : Row) → In r rows
        → In r (table c) × (p r ≡ true)
    pub newest_first :
        (c : Conn) (p : Row → Bool) (limit : ℤ) (rows : List Row)
        → query_map c p limit ≡ ok rows
        → IsDescending rows
    pub others_older :
        (c : Conn) (p : Row → Bool) (limit : ℤ) (rows : List Row)
        → query_map c p limit ≡ ok rows
        → (s : Row) → In s (table c)
        → p s ≡ true
        → In s rows ⊎ All (λ r. s.timestamp ≤ℤ r.timestamp) rows
    pub within :
        (c : Conn) (p : Row → Bool) (n : ℕ) (rows : List Row)
        → query_map c p (pos n) ≡ ok rows
        → length rows ≤ n
    pub full :
        (c : Conn) (p : Row → Bool) (limit : ℤ) (rows : List Row)
        → query_map c p limit ≡ ok rows
        → HasRoom limit rows
        → (s : Row) → In s (table c)
        → p s ≡ true
        → In s rows

  -- LIKE with an escape character compares characters, ASCII letters in either case.
  pub record LikeLaws : Type 0 where
    pub like_rest : (e : ℕ) (s : Text) → e ≢ b'%' → like (b'%' ∷ []) e s ≡ true
    pub like_escaped :
        (e c d : ℕ) (p s : Text)
        → e ≢ b'%'
        → e ≢ b'_'
        → like (e ∷ c ∷ p) e (d ∷ s) ≡ (to_ascii_lowercase c == to_ascii_lowercase d && like p e s)
    pub like_escaped_end :
        (e c : ℕ) (p : Text) → e ≢ b'%' → e ≢ b'_' → like (e ∷ c ∷ p) e [] ≡ false
    pub like_plain :
        (e c d : ℕ) (p s : Text)
        → c ≢ e
        → c ≢ b'%'
        → c ≢ b'_'
        → like (c ∷ p) e (d ∷ s) ≡ (to_ascii_lowercase c == to_ascii_lowercase d && like p e s)
    pub like_plain_end :
        (e c : ℕ) (p : Text) → c ≢ e → c ≢ b'%' → c ≢ b'_' → like (c ∷ p) e [] ≡ false
