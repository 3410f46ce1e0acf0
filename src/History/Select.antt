-- ===== src/History/Select.antt =====
-- SELECT and UPDATE of the database in memory meet the laws of History/Database.
use tiny_ssh.Base.{
  ℕ, zero, suc, ◌≡◌, ◌⊎◌, refl, sym, ap, subst, Bool, true, List, [], ◌∷◌, Result, ok, In, ℤ, pos,
  negsuc, ◌≤ℤ◌, int_leb, length, take, arith, All, if◌then◌else◌, Bool-cases, inl, inr, length-take,
  take-length,
}
use tiny_ssh.History.Database.{Row, SqliteError, SelectLaws, UpdateLaws, IsDescending, HasRoom}
use tiny_ssh.History.Memory.{memory, filter_rows, put_newest, newest_first, limited}

ok_rows : {a b : List Row} → ◌≡◌ {A = Result SqliteError (List Row)} (ok a) (ok b) → a ≡ b
ok_rows h = cc

All-In : (P : Row → Type 0) (rows : List Row) → ((r : Row) → In r rows → P r) → All P rows
All-In P [] h = tt
All-In P (r ∷ rs) h = (h r (inl refl), All-In P rs (λ s i. h s (inr i)))

pub In-All : (P : Row → Type 0) (rows : List Row) (r : Row) → All P rows → In r rows → P r
In-All P (s ∷ rs) r (h, hs) (inl e) = subst P (sym e) h
In-All P (s ∷ rs) r (h, hs) (inr i) = In-All P rs r hs i
In-All P [] r h i = elim i [ ]

-- Membership under each operation.
In-filter_rows :
    (p : Row → Bool) (rows : List Row) (r : Row)
    → In r (filter_rows p rows)
    → In r rows × (p r ≡ true)
unfolding filter_rows
In-filter_rows p [] r i = elim i [ ]
In-filter_rows p (s ∷ rs) r i = elim (Bool-cases (p s)) [
  | inl t ↦ elim (subst (λ b. In r (if b then s ∷ filter_rows p rs else filter_rows p rs)) t i) [
    | inl e ↦ (inl e, subst (λ x. p x ≡ true) (sym e) t)
    | inr j ↦ let (k, q) = In-filter_rows p rs r j in (inr k, q)
  ]
  | inr f ↦
      let j = subst (λ b. In r (if b then s ∷ filter_rows p rs else filter_rows p rs)) f i in
      let (k, q) = In-filter_rows p rs r j in (inr k, q)
]

filter_rows-In :
    (p : Row → Bool) (rows : List Row) (r : Row)
    → In r rows
    → p r ≡ true
    → In r (filter_rows p rows)
unfolding filter_rows
filter_rows-In p [] r i t = elim i [ ]
filter_rows-In p (s ∷ rs) r (inl e) t =
    let held : p s ≡ true = subst (λ x. p x ≡ true) e t in rw held (inl e)
filter_rows-In p (s ∷ rs) r (inr i) t = elim (Bool-cases (p s)) [
  | inl h ↦ rw h (inr (filter_rows-In p rs r i t))
  | inr f ↦ rw f (filter_rows-In p rs r i t)
]

In-put_newest :
    (r : Row) (rows : List Row) (s : Row) → In s (put_newest r rows) → (s ≡ r) ⊎ In s rows
unfolding put_newest
In-put_newest r [] s i = i
In-put_newest r (t ∷ rest) s i = elim (Bool-cases (int_leb t.timestamp r.timestamp)) [
  | inl b ↦ subst (λ x. In s (if x then r ∷ t ∷ rest else t ∷ put_newest r rest)) b i
  | inr b ↦ elim (subst (λ x. In s (if x then r ∷ t ∷ rest else t ∷ put_newest r rest)) b i) [
    | inl e ↦ inr (inl e)
    | inr j ↦ elim (In-put_newest r rest s j) [ inl e ↦ inl e | inr k ↦ inr (inr k) ]
  ]
]

put_newest-In :
    (r : Row) (rows : List Row) (s : Row) → (s ≡ r) ⊎ In s rows → In s (put_newest r rows)
unfolding put_newest
put_newest-In r [] s i = i
put_newest-In r (t ∷ rest) s i = elim (Bool-cases (int_leb t.timestamp r.timestamp)) [
  | inl b ↦ rw b i
  | inr b ↦ rw b (elim i [
    | inl e ↦ inr (put_newest-In r rest s (inl e))
    | inr j ↦ elim j [ inl e ↦ inl e | inr k ↦ inr (put_newest-In r rest s (inr k)) ]
  ])
]

In-newest_first : (rows : List Row) (s : Row) → In s (newest_first rows) → In s rows
unfolding newest_first
In-newest_first [] s i = i
In-newest_first (r ∷ rs) s i = elim (In-put_newest r (newest_first rs) s i) [
  | inl e ↦ inl e
  | inr j ↦ inr (In-newest_first rs s j)
]

newest_first-In : (rows : List Row) (s : Row) → In s rows → In s (newest_first rows)
unfolding newest_first
newest_first-In [] s i = i
newest_first-In (r ∷ rs) s (inl e) = put_newest-In r (newest_first rs) s (inl e)
newest_first-In (r ∷ rs) s (inr i) =
    put_newest-In r (newest_first rs) s (inr (newest_first-In rs s i))

put_newest-IsDescending :
    (r : Row) (rows : List Row) → IsDescending rows → IsDescending (put_newest r rows)
unfolding put_newest
put_newest-IsDescending r [] d = (tt, tt)
put_newest-IsDescending r (t ∷ rest) (h, d) = elim (Bool-cases (int_leb t.timestamp r.timestamp)) [
  | inl b ↦
      let newer : t.timestamp ≤ℤ r.timestamp = ground arith in
      rw b ((newer, All-In _ rest (λ s i. let later = In-All _ rest s h i in omega arith)), (h, d))
  | inr b ↦
      let older : r.timestamp ≤ℤ t.timestamp = ground arith in
      rw b (
        All-In _ (put_newest r rest) (λ s i. elim (In-put_newest r rest s i) [
          | inl e ↦ rw e older
          | inr j ↦ In-All _ rest s h j
        ]),
        put_newest-IsDescending r rest d,
      )
]

newest_first-IsDescending : (rows : List Row) → IsDescending (newest_first rows)
unfolding newest_first
newest_first-IsDescending [] = tt
newest_first-IsDescending (r ∷ rs) =
    put_newest-IsDescending r (newest_first rs) (newest_first-IsDescending rs)

In-take : (n : ℕ) (rows : List Row) (s : Row) → In s (take n rows) → In s rows
In-take zero rows s i = elim i [ ]
In-take (suc n) [] s i = elim i [ ]
In-take (suc n) (r ∷ rs) s (inl e) = inl e
In-take (suc n) (r ∷ rs) s (inr i) = inr (In-take n rs s i)

take-IsDescending : (n : ℕ) (rows : List Row) → IsDescending rows → IsDescending (take n rows)
take-IsDescending zero rows d = tt
take-IsDescending (suc n) [] d = tt
take-IsDescending (suc n) (r ∷ rs) (h, d) =
    (All-In _ (take n rs) (λ s i. In-All _ rs s h (In-take n rs s i)), take-IsDescending n rs d)

abbrev NotNewer : Row → List Row → Type 0
NotNewer s = All (λ r. s.timestamp ≤ℤ r.timestamp)

-- What is cut off is no newer than what stays.
take-others :
    (n : ℕ) (rows : List Row) (s : Row)
    → IsDescending rows
    → In s rows
    → In s (take n rows) ⊎ NotNewer s (take n rows)
take-others zero rows s d i = inr tt
take-others (suc n) [] s d i = elim i [ ]
take-others (suc n) (r ∷ rs) s (h, d) (inl e) = inl (inl e)
take-others (suc n) (r ∷ rs) s (h, d) (inr i) = elim (take-others n rs s d i) [
  | inl j ↦ inl (inr j)
  | inr older ↦ inr (In-All _ rs s h i, older)
]

limited-In : (limit : ℤ) (rows : List Row) (s : Row) → In s (limited limit rows) → In s rows
unfolding limited
limited-In (pos n) rows s i = In-take n rows s i
limited-In (negsuc n) rows s i = i

limited-IsDescending :
    (limit : ℤ) (rows : List Row) → IsDescending rows → IsDescending (limited limit rows)
unfolding limited
limited-IsDescending (pos n) rows d = take-IsDescending n rows d
limited-IsDescending (negsuc n) rows d = d

limited-others :
    (limit : ℤ) (rows : List Row) (s : Row)
    → IsDescending rows
    → In s rows
    → In s (limited limit rows) ⊎ NotNewer s (limited limit rows)
unfolding limited
limited-others (pos n) rows s d i = take-others n rows s d i
limited-others (negsuc n) rows s d i = inl i

limited-full :
    (limit : ℤ) (rows : List Row) (s : Row)
    → HasRoom limit (limited limit rows)
    → In s rows
    → In s (limited limit rows)
unfolding limited
limited-full (pos n) rows s room i = rw (take-length n rows (omega (arith, length-take n rows))) i
limited-full (negsuc n) rows s room i = i

abbrev selected : (Row → Bool) → List Row → List Row
selected p rows = newest_first (filter_rows p rows)

pub memory-SelectLaws : SelectLaws memory
unfolding limited
memory-SelectLaws = record {
  answered = λ c p limit rows h r i.
      let j = subst (In r) (sym (ok_rows h)) i in
      In-filter_rows p c r
        (In-newest_first (filter_rows p c) r (limited-In limit (selected p c) r j));
  newest_first = λ c p limit rows h.
      subst IsDescending (ok_rows h)
        (limited-IsDescending limit (selected p c) (newest_first-IsDescending (filter_rows p c)));
  others_older = λ c p limit rows h s i t.
      subst (λ a. In s a ⊎ NotNewer s a) (ok_rows h)
        (limited-others limit (selected p c) s (newest_first-IsDescending (filter_rows p c))
          (newest_first-In (filter_rows p c) s (filter_rows-In p c s i t)));
  within = λ c p n rows h. omega (arith, length-take n (selected p c), ap length (ok_rows h));
  full = λ c p limit rows h room s i t. subst (In s) (ok_rows h) (
      limited-full limit (selected p c) s (subst (HasRoom limit) (sym (ok_rows h)) room)
        (newest_first-In (filter_rows p c) s (filter_rows-In p c s i t)));
}

pub memory-UpdateLaws : UpdateLaws memory
memory-UpdateLaws = record { updated = λ c id code c' h. cc }
