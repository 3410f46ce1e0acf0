-- ===== src/History/Suggest.antt =====
-- Which row `suggest` picks.
use tiny_ssh.Base.{
  ◌≡◌, ◌≢◌, ◌↔◌, refl, sym, ◌∙◌, Bool, true, Option, none, some, List, [], arith, Result, ok, err,
  In, ◌≤ℤ◌, equal_iff,
}
use tiny_ssh.Utf8.{Text}
use tiny_ssh.History.{
  SuggestContext, Suggestion, cwd_is, matches_host, matches_cwd, passes, pass_host, suggest, score,
}
use tiny_ssh.History.Database.{Row, Sqlite, SqliteError, QueryLaws, LikeLaws}
use tiny_ssh.History.Like.{begins, like-pattern_of}

-- A row that may be suggested: a command of this host that goes beyond the prefix, ASCII letters
-- in either case.
abbrev pub IsCandidate : SuggestContext → Row → Type 0
IsCandidate ctx row =
    (row.host ≡ ctx.host) × (begins ctx.prefix row.command ≡ true) × (row.command ≢ ctx.prefix)

-- The same in one directory.
abbrev pub IsLocal : SuggestContext → Text → Row → Type 0
IsLocal ctx cwd row = (row.cwd ≡ some cwd) × IsCandidate ctx row

-- No row with `P` is newer.
pub record IsNewest (rows : List Row) (P : Row → Type 0) (row : Row) : Type 0 where
  pub present : In row rows
  pub fits : P row
  pub newest : (s : Row) → In s rows → P s → s.timestamp ≤ℤ row.timestamp

cwd_is_iff : (o : Option Text) (cwd : Text) → (cwd_is o cwd ≡ true) ↔ (o ≡ some cwd)
unfolding cwd_is
cwd_is_iff none cwd = (λ h. cc, λ h. cc)
cwd_is_iff (some c) cwd = ground (arith, equal_iff c cwd)

module _ (db : Sqlite) (queries : QueryLaws db) (likes : LikeLaws db) where
  open db use {Conn, table, query_row}

  matches_host_iff :
      (ctx : SuggestContext) (row : Row) → (matches_host db ctx row ≡ true) ↔ IsCandidate ctx row
  unfolding matches_host
  matches_host_iff ctx row =
      rw (like-pattern_of db likes ctx.prefix row.command)
        (ground (arith, equal_iff row.host ctx.host, equal_iff row.command ctx.prefix))

  matches_cwd_iff :
      (ctx : SuggestContext) (cwd : Text) (row : Row)
      → (matches_cwd db ctx cwd row ≡ true) ↔ IsLocal ctx cwd row
  unfolding matches_cwd
  matches_cwd_iff ctx cwd row = ground (arith, matches_host_iff ctx row, cwd_is_iff row.cwd cwd)

  -- A query by a test that decides `P` finds a newest row with `P`, and fails to when there is none.
  query_row-IsNewest :
      (P : Row → Type 0) (p : Row → Bool) (decides : (r : Row) → (p r ≡ true) ↔ P r)
      → (c : Conn) (row : Row) → query_row c p ≡ ok (some row)
      → IsNewest (table c) P row
  query_row-IsNewest P p decides c row h =
      let (i, t, n) = queries.found c p row h in
      record { present = i; fits = (decides row).0 t; newest = λ s j q. n s j ((decides s).1 q) }

  query_row_none :
      (P : Row → Type 0) (p : Row → Bool) (decides : (r : Row) → (p r ≡ true) ↔ P r)
      → (c : Conn) → query_row c p ≡ ok none
      → (s : Row) → In s (table c)
      → ¬ P s
  query_row_none P p decides c h s i q =
      let t = queries.not_found c p h s i in let f = (decides s).1 q in cc

  -- How a suggestion comes about: from the directory, or from the host when the directory has
  -- nothing to suggest.
  pub data Suggests (c : Conn) (ctx : SuggestContext) (s : Suggestion) : Type 0 where
    local :
        (row : Row) (cwd : Text)
        → ctx.cwd ≡ some cwd
        → IsNewest (table c) (IsLocal ctx cwd) row
        → s ≡ record { command = row.command; source_id = row.id; score = 9 }
        → Suggests c ctx s
    host_wide :
        (row : Row)
        → ((cwd : Text) → ctx.cwd ≡ some cwd → (r : Row) → In r (table c) → ¬ IsLocal ctx cwd r)
        → IsNewest (table c) (IsCandidate ctx) row
        → s ≡ record { command = row.command; source_id = row.id; score = 4 }
        → Suggests c ctx s

  -- What a result of the passes means.
  abbrev pub Outcome : Conn → SuggestContext → Option Suggestion → Type 0
  Outcome c ctx (some s) = Suggests c ctx s
  Outcome c ctx none = (r : Row) → In r (table c) → ¬ IsCandidate ctx r

  abbrev pub NoLocal : Conn → SuggestContext → Type 0
  NoLocal c ctx =
      (cwd : Text) → ctx.cwd ≡ some cwd → (r : Row) → In r (table c) → ¬ IsLocal ctx cwd r

  pass_host-Outcome :
      (c : Conn) (ctx : SuggestContext) (r : Result SqliteError (Option Row))
      (o : Option Suggestion)
      → NoLocal c ctx
      → query_row c (matches_host db ctx) ≡ r
      → pass_host db c ctx ≡ ok o
      → Outcome c ctx o
  unfolding pass_host score
  pass_host-Outcome c ctx (err e) o nolocal q h = absurd (ground arith)
  pass_host-Outcome c ctx (ok none) (some s) nolocal q h = absurd (ground arith)
  pass_host-Outcome c ctx (ok (some row)) none nolocal q h = absurd (ground arith)
  pass_host-Outcome c ctx (ok none) none nolocal q h =
      query_row_none (IsCandidate ctx) (matches_host db ctx) (matches_host_iff ctx) c q
  pass_host-Outcome c ctx (ok (some row)) (some s) nolocal q h =
      host_wide row nolocal
        (query_row-IsNewest (IsCandidate ctx) (matches_host db ctx) (matches_host_iff ctx) c row q)
        (ground arith)

  passes-Outcome :
      (c : Conn) (ctx : SuggestContext) (cwd : Text) (r : Result SqliteError (Option Row))
      (o : Option Suggestion)
      → ctx.cwd ≡ some cwd
      → query_row c (matches_cwd db ctx cwd) ≡ r
      → passes db c ctx (some cwd) ≡ ok o
      → Outcome c ctx o
  unfolding passes score
  passes-Outcome c ctx cwd (err e) o d q h = absurd (ground arith)
  passes-Outcome c ctx cwd (ok (some row)) none d q h = absurd (ground arith)
  passes-Outcome c ctx cwd (ok (some row)) (some s) d q h =
      local row cwd d
        (query_row-IsNewest (IsLocal ctx cwd) (matches_cwd db ctx cwd) (matches_cwd_iff ctx cwd) c
          row q)
        (ground arith)
  passes-Outcome c ctx cwd (ok none) o d q h =
      pass_host-Outcome c ctx (query_row c (matches_host db ctx)) o
        (λ cwd' d' r i l.
          query_row_none (IsLocal ctx cwd) (matches_cwd db ctx cwd) (matches_cwd_iff ctx cwd) c q r
            i (cc, l.1))
        refl (ground arith)

  suggest-passes :
      (c : Conn) (ctx : SuggestContext)
      → ctx.prefix ≢ []
      → suggest db c ctx ≡ passes db c ctx ctx.cwd
  unfolding suggest
  suggest-passes c ctx ne = ground arith

  by_cwd :
      (c : Conn) (ctx : SuggestContext) (d : Option Text) (o : Option Suggestion)
      → ctx.cwd ≡ d
      → passes db c ctx d ≡ ok o
      → Outcome c ctx o
  by_cwd c ctx none o e h =
      pass_host-Outcome c ctx (query_row c (matches_host db ctx)) o (λ cwd d r i l. cc) refl
        (unfold passes in h)
  by_cwd c ctx (some cwd) o e h =
      passes-Outcome c ctx cwd (query_row c (matches_cwd db ctx cwd)) o e refl h

  -- What `suggest` answers for a prefix that is not empty: a newest command of the directory that
  -- begins with the prefix, ASCII letters in either case, and is not the prefix itself, with score
  -- 0.9; if the directory has none, a newest such command of the host, with score 0.4; and nothing
  -- only if the host has none.
  pub suggest-Outcome :
      (c : Conn) (ctx : SuggestContext) (o : Option Suggestion)
      → ctx.prefix ≢ []
      → suggest db c ctx ≡ ok o
      → Outcome c ctx o
  suggest-Outcome c ctx o ne h = by_cwd c ctx ctx.cwd o refl (sym (suggest-passes c ctx ne) ∙ h)
