-- ===== src/Reading/Openings/Rows.antt =====
-- The row of one reader and novel under upserts, and the raising of a ceiling.
use reading_wiki.Prelude.{
  ℕ, ◌≡◌, refl, ◌∙◌, Bool, true, false, ◌&&◌, Option, none, some, List, [], ◌∷◌, ◌++◌, ◌==◌, max,
  arith, if◌then◌else◌, first_match, first_match_holds, first_match-put, first_match-put_ne,
  first_match-append, subst, ==_iff, Option-cases, inl, inr,
}
use reading_wiki.Reading.Tables.{ProgressRow, is_progress, upsert_progress, raised, greatest}

abbrev pub raise_all : List ℕ → Option ℕ → Option ℕ
raise_all [] c = c
raise_all (n ∷ ns) c = raise_all ns (some (raised c n))

abbrev pub larger : Option ℕ → Option ℕ → Option ℕ
larger none o = o
larger (some m) none = some m
larger (some m) (some n) = some (max m n)

pub raise_all-greatest : (ns : List ℕ) (c : Option ℕ) → raise_all ns c ≡ larger c (greatest ns)
unfolding greatest
raise_all-greatest [] none = refl
raise_all-greatest [] (some m) = refl
raise_all-greatest (n ∷ ns) none = elim (Option-cases (greatest ns)) [
  | inl e ↦ rw (raise_all-greatest ns (some (raised none n)), e) (ground arith)
  | inr (g, e) ↦ rw (raise_all-greatest ns (some (raised none n)), e) (ground arith)
]
raise_all-greatest (n ∷ ns) (some m) = elim (Option-cases (greatest ns)) [
  | inl e ↦ rw (raise_all-greatest ns (some (raised (some m) n)), e) (ground arith)
  | inr (g, e) ↦ rw (raise_all-greatest ns (some (raised (some m) n)), e) (ground arith)
]

pub raise_all-append :
    (ms ns : List ℕ) (c : Option ℕ) → raise_all (ms ++ ns) c ≡ raise_all ns (raise_all ms c)
raise_all-append [] ns c = refl
raise_all-append (m ∷ ms) ns c = raise_all-append ms ns _

last_row :
    (p : ProgressRow → Bool) (r : ProgressRow)
    → first_match p (r ∷ []) ≡ (if p r then some r else none)
unfolding first_match
last_row p r = refl

-- An upsert of the row of one reader and novel, seen by another reader, or in another novel.
module _ (j other : ℕ) (fresh : ProgressRow) (change : ProgressRow → ProgressRow)
    (rows : List ProgressRow) (own : is_progress j other fresh ≡ true)
    (keep : (old : ProgressRow)
      → is_progress j other old ≡ true
      → is_progress j other (change old) ≡ true) where
  pub upsert_apart :
      (i user : ℕ)
      → (j == i && other == user) ≡ false
      → first_match (is_progress i user) (upsert_progress j other fresh change rows)
        ≡ first_match (is_progress i user) rows
  unfolding upsert_progress
  upsert_apart i user apart = elim (Option-cases (first_match (is_progress j other) rows)) [
    | inl e ↦
        rw (e, upsert_progress)
          (ground (
            arith,
            first_match-append (is_progress i user) rows (fresh ∷ []),
            apart,
            own,
            last_row (is_progress i user) fresh,
            Option-cases (first_match (is_progress i user) rows),
          ))
    | inr (old, e) ↦
        rw (e, upsert_progress)
          (first_match-put_ne (is_progress j other) (is_progress i user) (change old) rows
            (λ x h. ground (arith, h, apart))
            (ground
              (arith, keep old (first_match_holds (is_progress j other) rows {x = old} e), apart)))
  ]

  upsert_own :
      first_match (is_progress j other) (upsert_progress j other fresh change rows)
      ≡ elim (first_match (is_progress j other) rows) [
        | none ↦ some fresh
        | some old ↦ some (change old)
      ]
  unfolding upsert_progress
  upsert_own = elim (Option-cases (first_match (is_progress j other) rows)) [
    | inl e ↦
        rw (e, upsert_progress)
          (first_match-append (is_progress j other) rows (fresh ∷ [])
            ∙ rw e (last_row (is_progress j other) fresh ∙ rw own refl))
    | inr (old, e) ↦
        rw (e, upsert_progress)
          (first_match-put (is_progress j other) (change old) rows
              (keep old (first_match_holds (is_progress j other) rows {x = old} e))
            ∙ rw e refl)
  ]

  pub upsert_same :
      (i user : ℕ)
      → (j == i && other == user) ≡ true
      → first_match (is_progress i user) (upsert_progress j other fresh change rows)
        ≡ elim (first_match (is_progress i user) rows) [
          | none ↦ some fresh
          | some old ↦ some (change old)
        ]
  upsert_same i user same =
      subst
        (λ k.
          first_match (is_progress k user) (upsert_progress j other fresh change rows)
          ≡ elim (first_match (is_progress k user) rows) [
            | none ↦ some fresh
            | some old ↦ some (change old)
          ])
        ((==_iff j i).0 (ground (arith, same)))
        (subst
          (λ u.
            first_match (is_progress j u) (upsert_progress j other fresh change rows)
            ≡ elim (first_match (is_progress j u) rows) [
              | none ↦ some fresh
              | some old ↦ some (change old)
            ])
          ((==_iff other user).0 (ground (arith, same))) upsert_own)
