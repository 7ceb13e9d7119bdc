-- ===== src/Codex/Fuse/Results.antt =====
-- What a hybrid search returns.
use reading_wiki.Prelude.{
  ℕ, zero, suc, ◌*◌, ◌≤◌, ◌≡◌, refl, sym, subst, ap, Bool, true, false, not, ◌&&◌, ◌||◌, List, [],
  ◌∷◌, ==_iff, arith, All, All-select, All-every, length, count_where, count-All-false, select,
  if◌then◌else◌, Bool-cases, inl, inr,
}
use reading_wiki.Codex.Bm25.{Chunk}
use reading_wiki.Codex.Fuse.{
  Scores, Entry, is_id, add_hits, sort_entries, has_hit, quota_of, required, extend, take, limited,
  fuse, hybrid_hits,
}
use reading_wiki.Codex.Fuse.Order.{IsOrder, InOrder, sort-InOrder}
use reading_wiki.Codex.Fuse.Counts.{
  count-sort, length-sort, count-add_hits, take-all, length-extend, count-extend_ge,
  count-extend_le, count-select, length-select, All-extend,
}
use reading_wiki.Codex.Fuse.Quotas.{Once, DocsHave, add_hits-All, sort-All, count-required}

has_hit-take :
    (f : Scores) (i n : ℕ) (hs : List Chunk)
    → has_hit f i (take n hs) ≡ true
    → has_hit f i hs ≡ true
unfolding take
has_hit-take f i zero hs h = cc
has_hit-take f i (suc n) [] h = cc
has_hit-take f i (suc n) (c ∷ hs) h = ground (arith, has_hit-take f i n hs)

module _ (f : Scores) (rrf_k : ℕ) (sparse dense : List Chunk) where
  abbrev ordered : List (Entry f)
  ordered = sort_entries f (add_hits f rrf_k 1 dense (add_hits f rrf_k 1 sparse []))

  count_ordered :
      (i : ℕ)
      → count_where (is_id f i) ordered
        ≡ (if has_hit f i dense then 1 else if has_hit f i sparse then 1 else 0)
  unfolding count_where
  count_ordered i =
      let first = count-add_hits f i rrf_k 1 sparse [] (omega arith) in
      ground (
        arith,
        count-sort f (is_id f i) (add_hits f rrf_k 1 dense (add_hits f rrf_k 1 sparse [])),
        count-add_hits f i rrf_k 1 dense (add_hits f rrf_k 1 sparse []),
        first,
      )

  ordered-Once : Once f ordered
  ordered-Once i = ground (arith, count_ordered i)

  ordered-All : (P : Chunk → Type 0) → All P sparse → All P dense → DocsHave f P ordered
  ordered-All P hs hd =
      sort-All f P _
        (add_hits-All f P rrf_k 1 dense _ hd (add_hits-All f P rrf_k 1 sparse [] hs tt))

module _ (f : Scores) (k quota : ℕ) (sparse dense : List Chunk) (es : List (Entry f))
    (once : Once f es) (room : 2 * quota ≤ k) where
  abbrev req : Entry f → Bool
  req = required f quota sparse dense

  -- The required entries fit.
  length_chosen : length (select req es) ≤ k
  length_chosen =
      omega (arith, length-select f k req es, count-required f quota sparse dense es once)

  limited_lem : limited f k req es ≡ sort_entries f (extend f k req (select req es) es)
  unfolding limited
  limited_lem = ap (sort_entries f) (
      take-all k (extend f k req (select req es) es)
        (length-extend f k req (select req es) es length_chosen))

  length-limited : length (limited f k req es) ≤ k
  length-limited = rw limited_lem (
      omega (
        arith,
        length-sort f (extend f k req (select req es) es),
        length-extend f k req (select req es) es length_chosen,
      ))

  limited-Once : Once f (limited f k req es)
  limited-Once i = rw limited_lem (
      omega (
        arith,
        count-sort f (is_id f i) (extend f k req (select req es) es),
        count-extend_le f k req (is_id f i) (select req es) es,
        count-select f k req (is_id f i) es,
        once i,
      ))

  limited-All : (P : Chunk → Type 0) → DocsHave f P es → DocsHave f P (limited f k req es)
  limited-All P all = rw limited_lem (
      sort-All f P _ (
        All-extend f k req (λ e. P e.doc) (select req es) es (All-select (λ e. P e.doc) req es all)
          all))

  -- Whether an entry is required depends on its id alone.
  required_id :
      (i : ℕ)
      → (has_hit f i (take quota sparse) || has_hit f i (take quota dense)) ≡ true
      → (e : Entry f) → (is_id f i e && not (req e)) ≡ false
  required_id i wanted e = elim (Bool-cases (is_id f i e)) [
    | inr other ↦ rw other refl
    | inl same ↦
        let id : e.doc.id ≡ i = (==_iff e.doc.id i).0 same in
        let is_required : req e ≡ true =
          subst (λ n. (has_hit f n (take quota sparse) || has_hit f n (take quota dense)) ≡ true)
            (sym id) wanted in
        rw (same, is_required) refl
  ]

  limited_has :
      (i : ℕ)
      → (has_hit f i (take quota sparse) || has_hit f i (take quota dense)) ≡ true
      → count_where (is_id f i) es ≤ count_where (is_id f i) (limited f k req es)
  limited_has i wanted = rw limited_lem (
      omega (
        arith,
        count-sort f (is_id f i) (extend f k req (select req es) es),
        count-extend_ge f k req (is_id f i) (select req es) es,
        count-select f k req (is_id f i) es,
        count-All-false (λ e. is_id f i e && not (req e)) es
            (All-every _ es (required_id i wanted)),
      ))

-- ── the search ──

limited-InOrder :
    (f : Scores) (laws : IsOrder f) (k : ℕ) (req : Entry f → Bool) (es : List (Entry f))
    → InOrder f (limited f k req es)
unfolding limited
limited-InOrder f laws k req es = sort-InOrder f laws (take k (extend f k req (select req es) es))

module _ (f : Scores) (laws : IsOrder f) (rrf_k k rounded : ℕ) (sparse dense : List Chunk)
    (room : 2 * quota_of f k rounded ≤ k) where
  abbrev first_hits : List Chunk → List Chunk
  first_hits hits = take (quota_of f k rounded) hits

  hybrid_lem :
      hybrid_hits f rrf_k k rounded sparse dense
      ≡ limited f k (required f (quota_of f k rounded) sparse dense) (ordered f rrf_k sparse dense)
  unfolding hybrid_hits fuse
  hybrid_lem = take-all k _ (
      length-limited f k (quota_of f k rounded) sparse dense (ordered f rrf_k sparse dense)
        (ordered-Once f rrf_k sparse dense) room)

  in_hits :
      (i : ℕ)
      → (has_hit f i (first_hits sparse) || has_hit f i (first_hits dense)) ≡ true
      → (has_hit f i sparse || has_hit f i dense) ≡ true
  in_hits i wanted = ground (
    arith,
    has_hit-take f i (quota_of f k rounded) sparse,
    has_hit-take f i (quota_of f k rounded) dense,
  )

  -- Where `>` orders the scores and twice the quota of a source is at most `k`, a hybrid search for
  -- `k` hits returns at most `k`, in the order of the fused scores, then of the best ranks, then of
  -- the ids; each document is there once at most, none is of a chapter above the ceiling that both
  -- searches kept to, and a document among the first hits of either source, as many as the quota,
  -- is there.
  pub hybrid_hits-Fair :
      (ceiling i : ℕ)
      → All (λ h. h.chapter ≤ ceiling) sparse
      → All (λ h. h.chapter ≤ ceiling) dense
      → (has_hit f i (first_hits sparse) || has_hit f i (first_hits dense)) ≡ true
      → InOrder f (hybrid_hits f rrf_k k rounded sparse dense)
        × (length (hybrid_hits f rrf_k k rounded sparse dense) ≤ k)
        × Once f (hybrid_hits f rrf_k k rounded sparse dense)
        × All (λ e. e.doc.chapter ≤ ceiling) (hybrid_hits f rrf_k k rounded sparse dense)
        × (1 ≤ count_where (is_id f i) (hybrid_hits f rrf_k k rounded sparse dense))
  hybrid_hits-Fair ceiling i hs hd wanted =
      let q = quota_of f k rounded in
      let es = ordered f rrf_k sparse dense in
      let once = ordered-Once f rrf_k sparse dense in
      rw hybrid_lem (
        limited-InOrder f laws k (required f q sparse dense) es,
        length-limited f k q sparse dense es once room,
        limited-Once f k q sparse dense es once room,
        limited-All f k q sparse dense es once room (λ h. h.chapter ≤ ceiling)
            (ordered-All f rrf_k sparse dense (λ h. h.chapter ≤ ceiling) hs hd),
        ground (
          arith,
          limited_has f k q sparse dense es once room i wanted,
          count_ordered f rrf_k sparse dense i,
          in_hits i wanted,
        ),
      )
