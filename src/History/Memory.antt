-- ===== src/History/Memory.antt =====
-- A database in memory that meets the laws of History/Database.
use tiny_ssh.Base.{
  ℕ, ◌+◌, ◌≡◌, ◌≢◌, refl, Bool, true, false, ◌&&◌, Option, none, some, List, [], ◌∷◌, ◌++◌, ◌==◌,
  Result, ok, In, ℤ, pos, ◌≤ℤ◌, int_leb, length, map, take, negsuc, arith, if◌then◌else◌,
  Bool-cases, inl, inr, subst,
}
use tiny_ssh.Utf8.{Text}
use tiny_ssh.Keys.{to_ascii_lowercase}
use tiny_ssh.History.Database.{
  set_code, NewRow, Row, Sqlite, SqliteError, QueryLaws, InsertLaws, LikeLaws,
}

unfoldable pub is_nil : Text → Bool
is_nil [] = true
is_nil (c ∷ cs) = false

unfoldable pub match_char : ℕ → (Text → Bool) → Text → Bool
match_char c rest [] = false
match_char c rest (d ∷ s) = to_ascii_lowercase c == to_ascii_lowercase d && rest s

unfoldable pub match_any : (Text → Bool) → Text → Bool
match_any rest [] = false
match_any rest (d ∷ s) = rest s

unfoldable pub match_suffix : (Text → Bool) → Text → Bool
match_suffix rest [] = rest []
match_suffix rest (d ∷ s) = if rest (d ∷ s) then true else match_suffix rest s

unfoldable pub like : Text → ℕ → Text → Bool
like [] e s = is_nil s
like (c ∷ []) e s =
    if c == b'%' then true else if c == b'_' then match_any is_nil s else match_char c is_nil s
like (c ∷ d ∷ p) e s =
    if c == e
    then match_char d (like p e) s
    else if c == b'%'
    then match_suffix (like (d ∷ p) e) s
    else if c == b'_'
    then match_any (like (d ∷ p) e) s
    else match_char c (like (d ∷ p) e) s

-- The first of the newest rows that pass the test.
unfoldable pub newer : (Row → Bool) → Row → Option Row → Option Row
newer p r none = if p r then some r else none
newer p r (some s) = if p r && int_leb s.timestamp r.timestamp then some r else some s

unfoldable pub newest_row : (Row → Bool) → List Row → Option Row
newest_row p [] = none
newest_row p (r ∷ rs) = newer p r (newest_row p rs)

unfoldable pub append_row : List Row → NewRow → List Row × ℤ
append_row rows n =
    let id = pos (length rows + 1) in (rows ++ (record { id = id; columns = n }) ∷ [], id)

unfoldable pub filter_rows : (Row → Bool) → List Row → List Row
filter_rows p [] = []
filter_rows p (r ∷ rs) = let rest = filter_rows p rs in if p r then r ∷ rest else rest

-- A row before the first that is older.
unfoldable pub put_newest : Row → List Row → List Row
put_newest r [] = r ∷ []
put_newest r (s ∷ rest) =
    let later = put_newest r rest in
    if int_leb s.timestamp r.timestamp then r ∷ s ∷ rest else s ∷ later

unfoldable pub newest_first : List Row → List Row
newest_first [] = []
newest_first (r ∷ rs) = put_newest r (newest_first rs)

unfoldable pub limited : ℤ → List Row → List Row
limited (pos n) rows = take n rows
limited (negsuc n) rows = rows

abbrev pub memory : Sqlite
memory = record {
  Conn = List Row;
  table = λ rows. rows;
  insert = λ rows n. ok (append_row rows n);
  update_exit_code = λ rows id code. ok (map (set_code id code) rows);
  query_row = λ rows p. ok (newest_row p rows);
  query_map = λ rows p limit. ok (limited limit (newest_first (filter_rows p rows)));
  like = like;
}

ok_inj : {a b : Option Row} → ◌≡◌ {A = Result SqliteError (Option Row)} (ok a) (ok b) → a ≡ b
ok_inj h = cc

abbrev IsFound : (Row → Bool) → List Row → Option Row → Type 0
IsFound p rows none = (s : Row) → In s rows → p s ≡ false
IsFound p rows (some r) =
    In r rows × (p r ≡ true) × ((s : Row) → In s rows → p s ≡ true → s.timestamp ≤ℤ r.timestamp)

newer-IsFound :
    (p : Row → Bool) (r : Row) (rs : List Row) (o : Option Row)
    → IsFound p rs o
    → IsFound p (r ∷ rs) (newer p r o)
unfolding newer
newer-IsFound p r rs none h = elim (Bool-cases (p r)) [
  | inl t ↦ rw t (
    inl refl,
    t,
    λ s i q. elim i [ inl e ↦ rw e (omega arith) | inr j ↦ absurd (let z = h s j in ground arith) ],
  )
  | inr f ↦ rw f (λ s i. elim i [ inl e ↦ rw e f | inr j ↦ h s j ])
]
newer-IsFound p r rs (some s) (i, q, n) =
    elim (Bool-cases (p r && int_leb s.timestamp r.timestamp)) [
      | inl t ↦ rw t (
        inl refl,
        ground arith,
        λ u j k. elim j [ inl e ↦ rw e (omega arith) | inr j' ↦ ground (arith, n u j' k) ],
      )
      | inr f ↦ rw f (
        inr i,
        q,
        λ u j k. elim j [
          | inl e ↦ let k' = subst (λ x. p x ≡ true) e k in rw e (ground arith)
          | inr j' ↦ n u j' k
        ],
      )
    ]

newest_row-IsFound : (p : Row → Bool) (rows : List Row) → IsFound p rows (newest_row p rows)
unfolding newest_row
newest_row-IsFound p [] = λ s i. elim i [ ]
newest_row-IsFound p (r ∷ rs) = newer-IsFound p r rs (newest_row p rs) (newest_row-IsFound p rs)

pub memory-QueryLaws : QueryLaws memory
memory-QueryLaws = record {
  found = λ c p r h. subst (IsFound p c) (ok_inj h) (newest_row-IsFound p c);
  not_found = λ c p h. subst (IsFound p c) (ok_inj h) (newest_row-IsFound p c);
}

pub memory-InsertLaws : InsertLaws memory
unfolding append_row
memory-InsertLaws = record { inserted = λ c n c' id h. ground arith }

match_char_plain :
    (c d : ℕ) (p s : Text) (e : ℕ)
    → c ≢ e
    → c ≢ b'%'
    → c ≢ b'_'
    → like (c ∷ p) e (d ∷ s) ≡ (to_ascii_lowercase c == to_ascii_lowercase d && like p e s)
unfolding like match_char
match_char_plain c d [] s e x y z = ground arith
match_char_plain c d (a ∷ p) s e x y z = ground arith

match_char_plain_end :
    (c : ℕ) (p : Text) (e : ℕ) → c ≢ e → c ≢ b'%' → c ≢ b'_' → like (c ∷ p) e [] ≡ false
unfolding like match_char
match_char_plain_end c [] e x y z = ground arith
match_char_plain_end c (a ∷ p) e x y z = ground arith

escaped_char :
    (e c d : ℕ) (p s : Text)
    → like (e ∷ c ∷ p) e (d ∷ s) ≡ (to_ascii_lowercase c == to_ascii_lowercase d && like p e s)
unfolding like match_char
escaped_char e c d p s = ground arith

escaped_char_end : (e c : ℕ) (p : Text) → like (e ∷ c ∷ p) e [] ≡ false
unfolding like match_char
escaped_char_end e c p = ground arith

pub memory-LikeLaws : LikeLaws memory
memory-LikeLaws = record {
  like_rest = λ e s h. unfold like in refl;
  like_escaped = λ e c d p s x y. escaped_char e c d p s;
  like_escaped_end = λ e c p x y. escaped_char_end e c p;
  like_plain = λ e c d p s x y z. match_char_plain c d p s e x y z;
  like_plain_end = λ e c p x y z. match_char_plain_end c p e x y z;
}
