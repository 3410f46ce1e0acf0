-- ===== src/History/Open/Outcome.antt =====
-- What comes of opening the history of the user (crates/tiny-ssh-core/src/history.rs).
use tiny_ssh.Base.{
  ◌≡◌, refl, ◌∙◌, Option, none, some, List, codes, Result, ok, err, Result-cases, Option-cases, inl,
  inr,
}
use tiny_ssh.Utf8.{Text}
use tiny_ssh.History.{HistoryError, sqlite, no_data_dir, io, bad_clock}
use tiny_ssh.History.Database.{Row, Sqlite, SqliteError}
use tiny_ssh.History.Open.{
  Disk, schema, and_then, default_db_path, open_path, create_parent, open_default,
}

module _ (db : Sqlite) (disk : Disk db) where
  open db use {Conn, table}
  open disk use {
    FilePath, data_dir, join, parent, create_dir_all, connect, pragma_update, execute_batch,
  }

  -- A connection has the rows of the file; a pragma changes none, nor does a schema that creates
  -- only what does not exist.
  pub record DiskLaws : Type 0 where
    pub stored : FilePath → List Row
    pub connect-table : (p : FilePath) (c : Conn) → connect p ≡ ok c → table c ≡ stored p
    pub pragma_update-table :
        (c c' : Conn) (name value : Text) → pragma_update c name value ≡ ok c' → table c' ≡ table c
    pub schema-table : (c c' : Conn) → execute_batch c schema ≡ ok c' → table c' ≡ table c

  -- A statement on the way to an open file fails.
  pub data Fails (p : FilePath) (e : SqliteError) : Type 0 where
    no_connection : connect p ≡ err e → Fails p e
    no_wal :
        (c : Conn)
        → connect p ≡ ok c
        → pragma_update c (codes "journal_mode") (codes "WAL") ≡ err e
        → Fails p e
    no_synchronous :
        (c c' : Conn)
        → connect p ≡ ok c
        → pragma_update c (codes "journal_mode") (codes "WAL") ≡ ok c'
        → pragma_update c' (codes "synchronous") (codes "NORMAL") ≡ err e
        → Fails p e
    no_schema :
        (c c' c'' : Conn)
        → connect p ≡ ok c
        → pragma_update c (codes "journal_mode") (codes "WAL") ≡ ok c'
        → pragma_update c' (codes "synchronous") (codes "NORMAL") ≡ ok c''
        → execute_batch c'' schema ≡ err e
        → Fails p e

  -- The directory of a file is there, if it has one.
  abbrev pub Made : Option FilePath → Type 0
  Made none = Unit
  Made (some above) = create_dir_all above ≡ ok tt

  module _ (laws : DiskLaws) where
    open laws use {stored}

    -- An open file has its rows, and only a statement can fail.
    abbrev pub Opened : FilePath → Result HistoryError Conn → Type 0
    Opened p (ok c) = table c ≡ stored p
    Opened p (err (sqlite e)) = Fails p e
    Opened p (err _) = ⊥

    open_path-Opened : (p : FilePath) → Opened p (open_path db disk p)
    unfolding open_path and_then
    open_path-Opened p = elim (Result-cases (connect p)) [
      | inr (e, q) ↦ rw (Opened, q) (no_connection q)
      | inl (c, q) ↦
          rw (Opened, q)
            (elim (Result-cases (pragma_update c (codes "journal_mode") (codes "WAL"))) [
              | inr (e, r) ↦ rw (Opened, r) (no_wal c q r)
              | inl (c', r) ↦
                  rw (Opened, r)
                    (elim (Result-cases (pragma_update c' (codes "synchronous") (codes "NORMAL"))) [
                      | inr (e, s) ↦ rw (Opened, s) (no_synchronous c c' q r s)
                      | inl (c'', s) ↦
                          rw (Opened, s)
                            (elim (Result-cases (execute_batch c'' schema)) [
                              | inr (e, t) ↦ rw (Opened, t) (no_schema c c' c'' q r s t)
                              | inl (c3, t) ↦
                                  rw (Opened, t)
                                    (laws.schema-table c'' c3 t
                                      ∙ laws.pragma_update-table c' c'' _ _ s
                                      ∙ laws.pragma_update-table c c' _ _ r
                                      ∙ laws.connect-table p c q)
                            ])
                    ])
            ])
    ]

    -- The file of the history.
    abbrev pub file_in : FilePath → FilePath
    file_in dir = join dir (codes "history.sqlite")

    -- The history of the user, or what it fails of.
    abbrev pub OpenedDefault : Result HistoryError Conn → Type 0
    OpenedDefault (ok c) =
        (dir : FilePath) × (data_dir ≡ some dir)
        × Made (parent (file_in dir))
        × (table c ≡ stored (file_in dir))
    OpenedDefault (err no_data_dir) = data_dir ≡ none
    OpenedDefault (err (io e)) =
        (dir : FilePath) × (above : FilePath) × (data_dir ≡ some dir)
        × (parent (file_in dir) ≡ some above)
        × (create_dir_all above ≡ err e)
    OpenedDefault (err (sqlite e)) =
        (dir : FilePath) × (data_dir ≡ some dir)
        × Made (parent (file_in dir))
        × Fails (file_in dir) e
    OpenedDefault (err bad_clock) = ⊥

    by_path :
        (dir : FilePath) (o : Result HistoryError Conn)
        → data_dir ≡ some dir
        → Made (parent (file_in dir))
        → Opened (file_in dir) o
        → OpenedDefault o
    by_path dir (ok c) d m h = (dir, d, m, h)
    by_path dir (err (sqlite e)) d m h = (dir, d, m, h)
    by_path dir (err no_data_dir) d m h = elim h [ ]
    by_path dir (err (io e)) d m h = elim h [ ]
    by_path dir (err bad_clock) d m h = elim h [ ]

    by_parent :
        (dir : FilePath)
        → data_dir ≡ some dir
        → OpenedDefault (
            and_then
              (λ e. e)
              (create_parent db disk (parent (file_in dir)))
              (λ u. open_path db disk (file_in dir)))
    unfolding create_parent and_then
    by_parent dir d = elim (Option-cases (parent (file_in dir))) [
      | inl n ↦ rw n (by_path dir _ d (rw n tt) (open_path-Opened (file_in dir)))
      | inr (above, a) ↦ rw (a) (elim (Result-cases (create_dir_all above)) [
        | inr (e, q) ↦ rw (OpenedDefault, q) (dir, above, d, a, q)
        | inl (tt, q) ↦ rw q (by_path dir _ d (rw a q) (open_path-Opened (file_in dir)))
      ])
    ]

    -- `open_default` by the data directory.
    from_dir : Option FilePath → Result HistoryError Conn
    from_dir o =
        and_then (λ e. e)
          (elim o [ none ↦ err no_data_dir | some dir ↦ ok (join dir (codes "history.sqlite")) ])
          (λ path.
            and_then (λ e. e) (create_parent db disk (parent path)) (λ u. open_path db disk path))

    from_dir-OpenedDefault : (o : Option FilePath) → data_dir ≡ o → OpenedDefault (from_dir o)
    unfolding from_dir and_then
    from_dir-OpenedDefault none d = d
    from_dir-OpenedDefault (some dir) d = by_parent dir d

    -- The history of the user opens with the rows of its file in the data directory, once the
    -- directory of the file is made. Otherwise there is no data directory, or the directory of the
    -- file cannot be made, or it is made and a statement of SQLite fails behind those before it, and
    -- the error says which of the three, with its message.
    pub open_default-OpenedDefault : OpenedDefault (open_default db disk)
    unfolding open_default default_db_path from_dir
    open_default-OpenedDefault = from_dir-OpenedDefault data_dir refl
