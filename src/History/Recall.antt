-- ===== src/History/Recall.antt =====
-- A command that has just been recorded is the one that is suggested.
use tiny_ssh.Base.{
  ℕ, ◌≡◌, ◌≢◌, ◌⊎◌, refl, sym, ◌∙◌, ap, subst, true, Option, none, some, List, [], ◌∷◌, ◌++◌, ok, ℤ,
  pos, In, ◌≤ℤ◌, inl, inr, Option-cases, Result-cases, err,
}
use tiny_ssh.Utf8.{Text}
use tiny_ssh.History.{
  HistoryError, HistoryEntry, SuggestContext, Suggestion, as_i64, row_of, record_entry, suggest,
}
use tiny_ssh.History.Database.{Row, Sqlite, InsertLaws, QueryLaws, LikeLaws}
use tiny_ssh.History.Like.{begins}
use tiny_ssh.History.Records.{record_entry-table}
use tiny_ssh.History.Suggest.{
  IsCandidate, IsLocal, IsNewest, Suggests, local, host_wide, Outcome, suggest-Outcome,
}

pub In-last : (x : Row) (xs : List Row) → In x (xs ++ x ∷ [])
In-last x [] = inl refl
In-last x (y ∷ ys) = inr (In-last x ys)

pub In-concat : (a x : Row) (xs : List Row) → In a (xs ++ x ∷ []) → In a xs ⊎ (a ≡ x)
In-concat a x [] (inl e) = inr e
In-concat a x [] (inr i) = elim i [ ]
In-concat a x (y ∷ ys) (inl e) = inl (inl e)
In-concat a x (y ∷ ys) (inr i) = elim (In-concat a x ys i) [ inl j ↦ inl (inr j) | inr e ↦ inr e ]

-- The score by whether a directory is known.
abbrev pub score_in : Option Text → ℕ
score_in none = 4
score_in (some cwd) = 9

-- The suggestion of an entry that is recorded under an id.
abbrev pub recalled : HistoryEntry → ℤ → Suggestion
recalled e id = record { command = e.command; source_id = id; score = score_in e.cwd }

-- Every row of the host is older than a time.
abbrev pub AreOlder : List Row → Text → ℤ → Type 0
AreOlder rows host time = (s : Row) → In s rows → s.host ≡ host → ¬ (time ≤ℤ s.timestamp)

-- The entry comes from the place in which a suggestion is asked for, and goes beyond the prefix.
pub record Fits (ctx : SuggestContext) (e : HistoryEntry) : Type 0 where
  pub same_host : e.host ≡ ctx.host
  pub same_cwd : e.cwd ≡ ctx.cwd
  pub prefix-begins : begins ctx.prefix e.command ≡ true
  pub goes_beyond : e.command ≢ ctx.prefix

-- The newest row among older ones and a new one with the property is the new one.
newest_is_last :
    (rows : List Row) (P : Row → Type 0) (last row : Row)
    → P last
    → ((s : Row) → In s rows → P s → ¬ (last.timestamp ≤ℤ s.timestamp))
    → IsNewest (rows ++ last ∷ []) P row
    → row ≡ last
newest_is_last rows P last row p older n = elim (In-concat row last rows n.present) [
  | inl i ↦ absurd (older row i n.fits (n.newest last (In-last last rows) p))
  | inr e ↦ e
]

module _ (db : Sqlite) (inserts : InsertLaws db) (queries : QueryLaws db)
    (likes : LikeLaws db) where
  open db use {Conn, table}

  module _ (c c' : Conn) (e : HistoryEntry) (id time : ℤ) (ctx : SuggestContext) where
    abbrev last : Row
    last = record { id = id; columns = row_of e time }

    module _ (t : table c' ≡ table c ++ last ∷ []) (older : AreOlder (table c) e.host time)
        (fits : Fits ctx e) where
      last-present : In last (table c')
      last-present = subst (In last) (sym t) (In-last last (table c))

      last-IsCandidate : IsCandidate ctx last
      unfolding row_of
      last-IsCandidate = (fits.same_host, fits.prefix-begins, fits.goes_beyond)

      newest_is_new :
          (P : Row → Type 0) (row : Row)
          → P last
          → ((s : Row) → P s → IsCandidate ctx s)
          → IsNewest (table c') P row
          → row ≡ last
      unfolding row_of
      newest_is_new P row p candidate n =
          newest_is_last (table c) P last row p
            (λ s i q. older s i ((candidate s q).0 ∙ sym fits.same_host))
            (subst (λ rows. IsNewest rows P row) t n)

      -- The row of the entry is what is suggested.
      Suggests-last : (s : Suggestion) → Suggests db queries likes c' ctx s → s ≡ recalled e id
      unfolding row_of
      Suggests-last s (local row cwd d n is) =
          let same =
            newest_is_new (IsLocal ctx cwd) row (fits.same_cwd ∙ d, last-IsCandidate) (λ r q. q.1)
              n in
          let here : e.cwd ≡ some cwd = fits.same_cwd ∙ d in
          is
          ∙ ap (λ (r : Row). record { command = r.command; source_id = r.id; score = 9 }) same
          ∙ ap (λ o. record { command = e.command; source_id = id; score = score_in o }) (sym here)
      Suggests-last s (host_wide row no_local n is) = elim (Option-cases ctx.cwd) [
        | inl nowhere ↦
            let same = newest_is_new (IsCandidate ctx) row last-IsCandidate (λ r q. q) n in
            let here : e.cwd ≡ none = fits.same_cwd ∙ nowhere in
            is
            ∙ ap (λ (r : Row). record { command = r.command; source_id = r.id; score = 4 }) same
            ∙ ap (λ o. record { command = e.command; source_id = id; score = score_in o })
                (sym here)
        | inr (cwd, d) ↦
            absurd (no_local cwd d last last-present (fits.same_cwd ∙ d, last-IsCandidate))
      ]

      Outcome-last :
          (o : Option Suggestion) → Outcome db queries likes c' ctx o → o ≡ some (recalled e id)
      Outcome-last none out = absurd (out last last-present last-IsCandidate)
      Outcome-last (some s) out = ap some (Suggests-last s out)

  -- An entry that is recorded at a time after that of every row of its host is what is suggested
  -- of the history as that leaves it, in its place, for each prefix that its command goes beyond, with score 9 if it was
  -- recorded in a directory, and else with score 4; unless a query of the database fails.
  pub suggest-recorded :
      (c c' : Conn) (secs : ℕ) (e : HistoryEntry) (id : ℤ) (ctx : SuggestContext)
      → e.timestamp ≡ pos 0
      → record_entry db c (some secs) e ≡ ok (c', id)
      → AreOlder (table c) e.host (as_i64 secs)
      → ctx.prefix ≢ []
      → Fits ctx e
      → (suggest db c' ctx ≡ ok (some (recalled e id)))
        ⊎ ((x : HistoryError) × (suggest db c' ctx ≡ err x))
  suggest-recorded c c' secs e id ctx z r older ne fits = elim (Result-cases (suggest db c' ctx)) [
    | inl (o, h) ↦ inl (
        h
        ∙ ap ok (
            Outcome-last c c' e id (as_i64 secs) ctx
              (record_entry-table db inserts c c' secs e id z r) older fits o
              (suggest-Outcome db queries likes c' ctx o ne h)))
    | inr failed ↦ inr failed
  ]
