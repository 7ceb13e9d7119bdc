-- ===== src/Codex/Fuse/Counts.antt =====
-- How often an id stands in the lists of a fusion, and what holds of every document.
use reading_wiki.Prelude.{
  ℕ, zero, suc, ◌+◌, ◌≤◌, ◌≡◌, refl, Bool, not, ◌&&◌, List, [], ◌∷◌, ◌++◌, ltb, ◌==◌, arith, All,
  All-append, length, count_where, count-append, count_one, select, Bool-cases, inl, inr,
  if◌then◌else◌,
}
use reading_wiki.Codex.Bm25.{Chunk}
use reading_wiki.Codex.Fuse.{
  Scores, Entry, is_id, add_hit, add_hits, insert_entry, sort_entries, has_hit, extend, take,
}

module _ (f : Scores) where
  count-insert :
      (p : Entry f → Bool) (e : Entry f) (es : List (Entry f))
      → count_where p (insert_entry f e es) ≡ count_where p (e ∷ es)
  unfolding insert_entry count_where
  count-insert p e [] = refl
  count-insert p e (x ∷ xs) = ground (arith, count-insert p e xs)

  pub count-sort :
      (p : Entry f → Bool) (es : List (Entry f))
      → count_where p (sort_entries f es) ≡ count_where p es
  unfolding sort_entries count_where
  count-sort p [] = refl
  count-sort p (e ∷ es) = ground (arith, count-insert p e (sort_entries f es), count-sort p es)

  length-insert :
      (e : Entry f) (es : List (Entry f)) → length (insert_entry f e es) ≡ suc (length es)
  unfolding insert_entry
  length-insert e [] = refl
  length-insert e (x ∷ xs) = ground (arith, length-insert e xs)

  pub length-sort : (es : List (Entry f)) → length (sort_entries f es) ≡ length es
  unfolding sort_entries
  length-sort [] = refl
  length-sort (e ∷ es) = omega (arith, length-insert e (sort_entries f es), length-sort es)

  -- An id that was there stays once; a new one is added.
  count-add_hit :
      (i rrf_k rank : ℕ) (h : Chunk) (es : List (Entry f))
      → count_where (is_id f i) (add_hit f rrf_k rank h es)
        ≡ (if h.id == i && count_where (is_id f i) es == 0 then 1 else count_where (is_id f i) es)
  unfolding add_hit count_where
  count-add_hit i rrf_k rank h [] = ground arith
  count-add_hit i rrf_k rank h (e ∷ es) = ground (arith, count-add_hit i rrf_k rank h es)

  -- Each id once, and every id of the hits.
  pub count-add_hits :
      (i rrf_k rank : ℕ) (hs : List Chunk) (es : List (Entry f))
      → count_where (is_id f i) es ≤ 1
      → count_where (is_id f i) (add_hits f rrf_k rank hs es)
        ≡ (if has_hit f i hs then 1 else count_where (is_id f i) es)
  unfolding add_hits
  count-add_hits i rrf_k rank [] es h = refl
  count-add_hits i rrf_k rank (c ∷ hs) es h = ground (
    arith,
    count-add_hit i rrf_k rank c es,
    count-add_hits i rrf_k (suc rank) hs (add_hit f rrf_k rank c es),
  )

-- ── prefixes ──

module _ {ℓ} {A : Type ℓ} where
  pub length-take : (n : ℕ) (xs : List A) → length (take n xs) ≤ n
  unfolding take
  length-take zero xs = omega arith
  length-take (suc n) [] = omega arith
  length-take (suc n) (x ∷ xs) = omega (arith, length-take n xs)

  pub take-all : (n : ℕ) (xs : List A) → length xs ≤ n → take n xs ≡ xs
  unfolding take
  take-all zero [] h = refl
  take-all zero (x ∷ xs) h = absurd (omega arith)
  take-all (suc n) [] h = refl
  take-all (suc n) (x ∷ xs) h = rw (take-all n xs (omega arith)) refl

  pub count-take :
      (p : A → Bool) (n : ℕ) (xs : List A) → count_where p (take n xs) ≤ count_where p xs
  unfolding take count_where
  count-take p zero xs = omega arith
  count-take p (suc n) [] = omega arith
  count-take p (suc n) (x ∷ xs) = ground (arith, count-take p n xs)

  pub All-take {κ} : (P : A → Type κ) (n : ℕ) (xs : List A) → All P xs → All P (take n xs)
  unfolding take
  All-take P zero xs h = tt
  All-take P (suc n) [] h = tt
  All-take P (suc n) (x ∷ xs) h = (h.0, All-take P n xs h.1)

-- ── the chosen entries ──

length-snoc {ℓ} : {A : Type ℓ} (xs : List A) (x : A) → length (xs ++ (x ∷ [])) ≡ suc (length xs)
length-snoc [] x = refl
length-snoc (y ∷ xs) x = omega (arith, length-snoc xs x)

module _ (f : Scores) (limit : ℕ) (req : Entry f → Bool) where
  pub length-extend :
      (chosen es : List (Entry f))
      → length chosen ≤ limit
      → length (extend f limit req chosen es) ≤ limit
  unfolding extend
  length-extend chosen [] h = h
  length-extend chosen (e ∷ es) h = elim (Bool-cases (not (req e) && ltb (length chosen) limit)) [
    | inl b ↦
        rw b (length-extend (chosen ++ (e ∷ [])) es (rw (length-snoc chosen e) (ground (arith, b))))
    | inr b ↦ rw b (length-extend chosen es h)
  ]

  pub count-extend_ge :
      (p : Entry f → Bool) (chosen es : List (Entry f))
      → count_where p chosen ≤ count_where p (extend f limit req chosen es)
  unfolding extend
  count-extend_ge p chosen [] = omega arith
  count-extend_ge p chosen (e ∷ es) = elim (Bool-cases (not (req e) && ltb (length chosen) limit)) [
    | inl b ↦
        rw b
          (omega (arith, count-extend_ge p (chosen ++ (e ∷ [])) es, count-append p chosen (e ∷ [])))
    | inr b ↦ rw b (count-extend_ge p chosen es)
  ]

  pub count-extend_le :
      (p : Entry f → Bool) (chosen es : List (Entry f))
      → count_where p (extend f limit req chosen es)
        ≤ count_where p chosen + count_where (λ e. p e && not (req e)) es
  unfolding extend count_where
  count-extend_le p chosen [] = omega arith
  count-extend_le p chosen (e ∷ es) = elim (Bool-cases (not (req e) && ltb (length chosen) limit)) [
    | inl b ↦ rw b (
        ground (
          arith,
          b,
          count-extend_le p (chosen ++ (e ∷ [])) es,
          count-append p chosen (e ∷ []),
          count_one p e,
        ))
    | inr b ↦ rw b (ground (arith, count-extend_le p chosen es))
  ]

  pub count-select :
      (p : Entry f → Bool) (es : List (Entry f))
      → count_where p (select req es) + count_where (λ e. p e && not (req e)) es ≡ count_where p es
  unfolding select count_where
  count-select p [] = omega arith
  count-select p (e ∷ es) = ground (arith, count-select p es)

  pub length-select : (es : List (Entry f)) → length (select req es) ≡ count_where req es
  unfolding select count_where
  length-select [] = refl
  length-select (e ∷ es) = ground (arith, length-select es)

  pub All-extend {κ} :
      (P : Entry f → Type κ) (chosen es : List (Entry f))
      → All P chosen
      → All P es
      → All P (extend f limit req chosen es)
  unfolding extend
  All-extend P chosen [] hc he = hc
  All-extend P chosen (e ∷ es) hc he =
      elim (Bool-cases (not (req e) && ltb (length chosen) limit)) [
        | inl b ↦
            rw b (
              All-extend P (chosen ++ (e ∷ [])) es (All-append P chosen (e ∷ []) hc (he.0, tt))
                he.1)
        | inr b ↦ rw b (All-extend P chosen es hc he.1)
      ]
