-- ===== src/History/Recent.antt =====
-- `recent` of crates/tiny-ssh-core/src/history.rs, behind `record` and `set_exit_code`.
use tiny_ssh.Base.{
  ℕ, ◌<◌, ◌^◌, ◌≡◌, ◌⊎◌, refl, sym, ◌∙◌, ap, subst, Bool, true, some, List, [], ◌∷◌, ◌++◌, map,
  map-append, Result, ok, err, In, ℤ, pos, ◌≤ℤ◌, int_eq, int_eq_iff, arith, Bool-cases,
  Result-cases, inl, inr, equal, equal_iff, ltb,
}
use tiny_ssh.Utf8.{Text}
use tiny_ssh.History.{
  HistoryError, sqlite, HistoryEntry, as_i64, row_of, row_to_entry, record_entry, set_exit_code,
  recent, map_rows,
}
use tiny_ssh.History.Database.{Row, Sqlite, InsertLaws, UpdateLaws, SelectLaws, HasRoom, set_code}
use tiny_ssh.History.Records.{IsDuration, stored, row_to_entry-row_of, record_entry-table}
use tiny_ssh.History.Recall.{In-last, In-concat, AreOlder}
use tiny_ssh.History.Select.{In-All}

In-map :
    (f : Row → Row) (rows : List Row) (a : Row)
    → In a (map f rows)
    → (b : Row) × In b rows × (a ≡ f b)
In-map f [] a i = elim i [ ]
In-map f (r ∷ rs) a (inl e) = (r, inl refl, e)
In-map f (r ∷ rs) a (inr i) = let (b, j, e) = In-map f rs a i in (b, inr j, e)

set_code-kept :
    (id code : ℤ) (r : Row)
    → ((set_code id code r).timestamp ≡ r.timestamp) × ((set_code id code r).host ≡ r.host)
unfolding set_code
set_code-kept id code r = elim (Bool-cases (int_eq r.id id)) [
  | inl t ↦ rw t (refl, refl)
  | inr t ↦ rw t (refl, refl)
]

room_of_limit : (limit : ℕ) → 0 < limit → HasRoom (as_i64 limit) []
unfolding as_i64
room_of_limit limit h = elim (Bool-cases (ltb limit (2 ^ 63))) [ inl t ↦ rw t h | inr t ↦ rw t tt ]

-- The row of an entry, once its exit code is set.
abbrev coded : HistoryEntry → ℤ → ℤ → ℤ → Row
coded e id time code = record {
  id = id;
  columns = record (row_of e time) { exit_code = some code };
}

set_code-row_of :
    (e : HistoryEntry) (id time code : ℤ)
    → set_code id code (record { id = id; columns = row_of e time }) ≡ coded e id time code
unfolding set_code
set_code-row_of e id time code = let same = (int_eq_iff id id).1 refl in rw same refl

row_to_entry-coded :
    (e : HistoryEntry) (id time code : ℤ)
    → IsDuration e.duration_ms
    → row_to_entry (coded e id time code) ≡ record (stored e id time) { exit_code = some code }
unfolding row_to_entry
row_to_entry-coded e id time code d =
    ap (λ (x : HistoryEntry). record x { exit_code = some code }) (row_to_entry-row_of e id time d)

module _ (db : Sqlite) (selects : SelectLaws db) where
  open db use {Conn, table, query_map}

  -- A row that is newer than all the others that pass the test is answered first.
  newest_is_head :
      (c : Conn) (p : Row → Bool) (limit : ℤ) (old : List Row) (last : Row) (rows : List Row)
      → table c ≡ old ++ last ∷ []
      → p last ≡ true
      → ((s : Row) → In s old → p s ≡ true → ¬ (last.timestamp ≤ℤ s.timestamp))
      → HasRoom limit []
      → query_map c p limit ≡ ok rows
      → (rest : List Row) × (rows ≡ last ∷ rest)
  newest_is_head c p limit old last [] t held older room q =
      let present = subst (In last) (sym t) (In-last last old) in
      elim (selects.full c p limit [] q room last present held) [ ]
  newest_is_head c p limit old last (x ∷ xs) t held older room q =
      let present = subst (In last) (sym t) (In-last last old) in
      let (stands, passes) = selects.answered c p limit (x ∷ xs) q x (inl refl) in
      let (behind, _) = selects.newest_first c p limit (x ∷ xs) q in
      let not_newer : last.timestamp ≤ℤ x.timestamp =
        elim (selects.others_older c p limit (x ∷ xs) q last present held) [
          | inl i ↦ elim i [ inl e ↦ rw e (omega arith) | inr j ↦ In-All _ xs last behind j ]
          | inr all ↦ all.0
        ] in
      elim (In-concat x last old (subst (In x) t stands)) [
        | inl i ↦ absurd (older x i passes not_newer)
        | inr e ↦ (xs, ap (λ r. r ∷ xs) e)
      ]

-- What `recent` answers begins with an entry, unless the database fails.
abbrev pub BeginsWith : Result HistoryError (List HistoryEntry) → HistoryEntry → Type 0
BeginsWith answer e =
    ((rest : List HistoryEntry) × (answer ≡ ok (e ∷ rest)))
    ⊎ ((x : HistoryError) × (answer ≡ err x))

module _ (db : Sqlite) (inserts : InsertLaws db) (updates : UpdateLaws db)
    (selects : SelectLaws db) where
  open db use {Conn, table, query_map, update_exit_code}

  set_exit_code-table :
      (c c' : Conn) (id code : ℤ)
      → set_exit_code db c id code ≡ ok c'
      → table c' ≡ map (set_code id code) (table c)
  unfolding set_exit_code
  set_exit_code-table c c' id code h = elim (Result-cases (update_exit_code c id code)) [
    | inl (c1, q) ↦ updates.updated c id code c' (ground arith)
    | inr (x, q) ↦ absurd (ground arith)
  ]

  -- The table behind the entry and its exit code.
  coded_table :
      (c c' c'' : Conn) (secs : ℕ) (e : HistoryEntry) (id code : ℤ)
      → e.timestamp ≡ pos 0
      → record_entry db c (some secs) e ≡ ok (c', id)
      → set_exit_code db c' id code ≡ ok c''
      → table c'' ≡ map (set_code id code) (table c) ++ coded e id (as_i64 secs) code ∷ []
  coded_table c c' c'' secs e id code z r s =
      set_exit_code-table c' c'' id code s
      ∙ ap (map (set_code id code)) (record_entry-table db inserts c c' secs e id z r)
      ∙ map-append (set_code id code) (table c)
          (record { id = id; columns = row_of e (as_i64 secs) } ∷ [])
      ∙ ap (λ r. map (set_code id code) (table c) ++ r ∷ [])
          (set_code-row_of e id (as_i64 secs) code)

  coded_older :
      (rows : List Row) (host : Text) (id code time : ℤ)
      → AreOlder rows host time
      → (s : Row) → In s (map (set_code id code) rows)
      → equal s.host host ≡ true
      → ¬ (time ≤ℤ s.timestamp)
  coded_older rows host id code time older s i held h =
      let (b, j, e) = In-map (set_code id code) rows s i in
      let (when, where_) = set_code-kept id code b in
      let here : s.host ≡ host = (equal_iff s.host host).0 held in
      older b j (sym where_ ∙ ap (λ (r : Row). r.host) (sym e) ∙ here)
        (subst (time ≤ℤ◌) (ap (λ (r : Row). r.timestamp) e ∙ when) h)

  recent-head :
      (c : Conn) (host : Text) (limit : ℕ) (old : List Row) (last : Row) (e : HistoryEntry)
      → table c ≡ old ++ last ∷ []
      → equal last.host host ≡ true
      → ((s : Row) → In s old → equal s.host host ≡ true → ¬ (last.timestamp ≤ℤ s.timestamp))
      → 0 < limit
      → row_to_entry last ≡ e
      → BeginsWith (recent db c host limit) e
  unfolding recent map_rows
  recent-head c host limit old last e t held older room reads =
      elim (Result-cases (query_map c (λ row. equal row.host host) (as_i64 limit))) [
        | inl (rows, q) ↦
            let (rest, is) =
              newest_is_head db selects c (λ row. equal row.host host) (as_i64 limit) old last rows
                t held older (room_of_limit limit room) q in
            inl (map_rows db rest, rw (q, recent, is, reads) refl)
        | inr (x, q) ↦ inr (sqlite x, rw (q, recent) refl)
      ]

  -- An entry without a time stamp of its own, with a duration that is a `u64` if it has one, is
  -- recorded while the clock is ahead of every row of its host, and its exit code is set. Then
  -- `recent`, with any limit but 0, begins with that entry: every field is as it was, with the id,
  -- the time of the clock and the exit code; unless the query fails.
  pub recent-recorded :
      (c c' c'' : Conn) (secs : ℕ) (e : HistoryEntry) (id code : ℤ) (limit : ℕ)
      → IsDuration e.duration_ms
      → e.timestamp ≡ pos 0
      → record_entry db c (some secs) e ≡ ok (c', id)
      → AreOlder (table c) e.host (as_i64 secs)
      → set_exit_code db c' id code ≡ ok c''
      → 0 < limit
      → BeginsWith
          (recent db c'' e.host limit)
          (record (stored e id (as_i64 secs)) { exit_code = some code })
  unfolding row_of
  recent-recorded c c' c'' secs e id code limit d z r older s room =
      recent-head c'' e.host limit (map (set_code id code) (table c))
        (coded e id (as_i64 secs) code) _ (coded_table c c' c'' secs e id code z r s)
        ((equal_iff e.host e.host).1 refl)
        (coded_older (table c) e.host id code (as_i64 secs) older) room
        (row_to_entry-coded e id (as_i64 secs) code d)
