-- ===== src/History/Records.antt =====
-- Writing an entry and reading it back.
use tiny_ssh.Base.{
  ℕ, ◌<◌, ◌^◌, ◌≡◌, ◌≢◌, ◌⊎◌, Result-cases, refl, Option, none, some, [], ◌∷◌, ◌++◌, arith, ok, ℤ,
  pos, int_eq, int_eq_iff, equal, Bool-cases, inl, inr,
}
use tiny_ssh.History.{
  HistorySource, user, as_str, parse, HistoryEntry, as_i64, as_u64, duration_column, duration_field,
  now_unix_secs, row_of, row_to_entry, insert_row, record_entry,
}
use tiny_ssh.History.Database.{Row, Sqlite, InsertLaws}

pub parse-as_str : (s : HistorySource) → parse (as_str s) ≡ s
unfolding parse as_str equal
parse-as_str user = refl
parse-as_str _ = refl

pub as_u64-as_i64 : (n : ℕ) → n < 2 ^ 64 → as_u64 (as_i64 n) ≡ n
unfolding as_u64 as_i64
as_u64-as_i64 n h = ground arith

-- A duration is a `u64`.
abbrev pub IsDuration : Option ℕ → Type 0
IsDuration none = Unit
IsDuration (some d) = d < 2 ^ 64

duration_field-column : (o : Option ℕ) → IsDuration o → duration_field (duration_column o) ≡ o
unfolding duration_field duration_column
duration_field-column none h = refl
duration_field-column (some d) h = ground (arith, as_u64-as_i64 d)

-- The entry as it comes back from the database.
abbrev pub stored : HistoryEntry → ℤ → ℤ → HistoryEntry
stored e id ts = record e { id = some id; timestamp = ts }

pub row_to_entry-row_of :
    (e : HistoryEntry) (id ts : ℤ)
    → IsDuration e.duration_ms
    → row_to_entry (record { id = id; columns = row_of e ts }) ≡ stored e id ts
unfolding row_to_entry row_of
row_to_entry-row_of e id ts h =
    ground (arith, parse-as_str e.source, duration_field-column e.duration_ms h)

module _ (db : Sqlite) (laws : InsertLaws db) where
  open db use {Conn, table, insert}

  -- The time that `record` gives an entry: its own, or the clock's if that is 0.
  abbrev pub Stamped : Option ℕ → HistoryEntry → ℤ → Type 0
  Stamped clock e ts =
      ((e.timestamp ≢ pos 0) × (ts ≡ e.timestamp))
      ⊎ ((e.timestamp ≡ pos 0) × (secs : ℕ) × (clock ≡ some secs) × (ts ≡ as_i64 secs))

  insert_row-table :
      (c c' : Conn) (e : HistoryEntry) (ts id : ℤ)
      → insert_row db c e (ok ts) ≡ ok (c', id)
      → table c' ≡ table c ++ (record { id = id; columns = row_of e ts }) ∷ []
  unfolding insert_row
  insert_row-table c c' e ts id h = elim (Result-cases (insert c (row_of e ts))) [
    | inl ((c'', id'), q) ↦ laws.inserted c (row_of e ts) c' id (ground arith)
    | inr (x, q) ↦ absurd (ground arith)
  ]

  -- The table has one more row, which reads back as the entry.
  abbrev pub Stored : Conn → Conn → Option ℕ → HistoryEntry → ℤ → ℤ → Type 0
  Stored c c' clock e id ts =
      (row : Row) × (table c' ≡ table c ++ row ∷ [])
      × (row_to_entry row ≡ stored e id ts)
      × Stamped clock e ts

  Stored-insert :
      (c c' : Conn) (clock : Option ℕ) (e : HistoryEntry) (id ts : ℤ)
      → IsDuration e.duration_ms
      → Stamped clock e ts
      → insert_row db c e (ok ts) ≡ ok (c', id)
      → Stored c c' clock e id ts
  Stored-insert c c' clock e id ts h st r = (
    record { id = id; columns = row_of e ts },
    insert_row-table c c' e ts id r,
    row_to_entry-row_of e id ts h,
    st,
  )

  stamped_by_clock :
      (c c' : Conn) (clock : Option ℕ) (e : HistoryEntry) (id : ℤ)
      → IsDuration e.duration_ms
      → e.timestamp ≡ pos 0
      → insert_row db c e (now_unix_secs clock) ≡ ok (c', id)
      → (ts : ℤ) × Stored c c' clock e id ts
  unfolding now_unix_secs
  stamped_by_clock c c' none e id h z r = absurd (unfold insert_row in ground arith)
  stamped_by_clock c c' (some secs) e id h z r = (
    as_i64 secs,
    Stored-insert c c' (some secs) e id (as_i64 secs) h (inr (z, secs, refl, refl)) r,
  )

  -- A recorded entry stands behind all that was in the table, and reads back with every field as
  -- it was, its new id and its time stamp.
  pub record_entry-Stored :
      (c c' : Conn) (clock : Option ℕ) (e : HistoryEntry) (id : ℤ)
      → IsDuration e.duration_ms
      → record_entry db c clock e ≡ ok (c', id)
      → (ts : ℤ) × Stored c c' clock e id ts
  unfolding record_entry
  record_entry-Stored c c' clock e id h r = elim (Bool-cases (int_eq e.timestamp (pos 0))) [
    | inl z ↦
        stamped_by_clock c c' clock e id h ((int_eq_iff e.timestamp (pos 0)).0 z) (ground arith)
    | inr n ↦ (
      e.timestamp,
      Stored-insert c c' clock e id e.timestamp h
          (inl ((λ z. ground (arith, int_eq_iff e.timestamp (pos 0))), refl)) (ground arith),
    )
  ]

  -- A row stands behind the others, with the time of the clock.
  pub record_entry-table :
      (c c' : Conn) (secs : ℕ) (e : HistoryEntry) (id : ℤ)
      → e.timestamp ≡ pos 0
      → record_entry db c (some secs) e ≡ ok (c', id)
      → table c' ≡ table c ++ (record { id = id; columns = row_of e (as_i64 secs) }) ∷ []
  unfolding record_entry now_unix_secs
  record_entry-table c c' secs e id z r =
      let now = (int_eq_iff e.timestamp (pos 0)).1 z in
      insert_row-table c c' e (as_i64 secs) id (ground arith)
