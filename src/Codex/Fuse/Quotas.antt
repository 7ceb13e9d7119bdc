-- ===== src/Codex/Fuse/Quotas.antt =====
-- The documents of a fusion, and how many entries the quota of the sources requires.
use reading_wiki.Prelude.{
  ℕ, suc, ◌+◌, ◌*◌, ◌≤◌, ◌≡◌, refl, Bool, true, false, ◌||◌, List, [], ◌∷◌, arith, All, length,
  count_where, if◌then◌else◌,
}
use reading_wiki.Codex.Bm25.{Chunk}
use reading_wiki.Codex.Fuse.{
  Scores, Entry, is_id, add_hit, add_hits, insert_entry, sort_entries, before, has_hit, required,
  take,
}
use reading_wiki.Codex.Fuse.Counts.{length-take}

abbrev pub Once : (f : Scores) → List (Entry f) → Type 0
Once f es = (i : ℕ) → count_where (is_id f i) es ≤ 1

-- ── documents ──

if-All :
    {A : Type 0} (P : A → Type 0) (c : Bool) (xs ys : List A)
    → All P xs
    → All P ys
    → All P (if c then xs else ys)
if-All P true xs ys hx hy = hx
if-All P false xs ys hx hy = hy

module _ (f : Scores) (P : Chunk → Type 0) where
  abbrev pub DocsHave : List (Entry f) → Type 0
  DocsHave = All (λ e. P e.doc)

  add_hit-All :
      (rrf_k rank : ℕ) (h : Chunk) (es : List (Entry f))
      → P h
      → DocsHave es
      → DocsHave (add_hit f rrf_k rank h es)
  unfolding add_hit
  add_hit-All rrf_k rank h [] p all = (p, tt)
  add_hit-All rrf_k rank h (e ∷ es) p all =
      if-All (λ x. P x.doc) (is_id f h.id e) _ _ (p, all.1)
        (all.0, add_hit-All rrf_k rank h es p all.1)

  pub add_hits-All :
      (rrf_k rank : ℕ) (hs : List Chunk) (es : List (Entry f))
      → All P hs
      → DocsHave es
      → DocsHave (add_hits f rrf_k rank hs es)
  unfolding add_hits
  add_hits-All rrf_k rank [] es ps all = all
  add_hits-All rrf_k rank (h ∷ hs) es ps all =
      add_hits-All rrf_k (suc rank) hs (add_hit f rrf_k rank h es) ps.1
        (add_hit-All rrf_k rank h es ps.0 all)

  insert-All :
      (e : Entry f) (es : List (Entry f)) → P e.doc → DocsHave es → DocsHave (insert_entry f e es)
  unfolding insert_entry
  insert-All e [] p all = (p, tt)
  insert-All e (x ∷ xs) p all =
      if-All (λ x. P x.doc) (before f e x) _ _ (p, all) (all.0, insert-All e xs p all.1)

  pub sort-All : (es : List (Entry f)) → DocsHave es → DocsHave (sort_entries f es)
  unfolding sort_entries
  sort-All [] all = tt
  sort-All (e ∷ es) all = insert-All e (sort_entries f es) all.0 (sort-All es all.1)

-- ── the required entries ──

module _ (f : Scores) where
  count-has_hit_step :
      (h : Chunk) (hs : List Chunk) (es : List (Entry f))
      → count_where (λ e. has_hit f e.doc.id (h ∷ hs)) es
        ≤ count_where (is_id f h.id) es + count_where (λ e. has_hit f e.doc.id hs) es
  unfolding count_where
  count-has_hit_step h hs [] = omega arith
  count-has_hit_step h hs (e ∷ es) = ground (arith, count-has_hit_step h hs es)

  count_nothing : (es : List (Entry f)) → count_where (λ e. false) es ≡ 0
  unfolding count_where
  count_nothing [] = refl
  count_nothing (e ∷ es) = count_nothing es

  -- Distinct entries of the ids of a list are no more than the list is long.
  count-has_hit :
      (hs : List Chunk) (es : List (Entry f))
      → Once f es
      → count_where (λ e. has_hit f e.doc.id hs) es ≤ length hs
  count-has_hit [] es once = omega (arith, count_nothing es)
  count-has_hit (h ∷ hs) es once =
      omega (arith, count-has_hit_step h hs es, once h.id, count-has_hit hs es once)

  count-or :
      (p q : Entry f → Bool) (es : List (Entry f))
      → count_where (λ e. p e || q e) es ≤ count_where p es + count_where q es
  unfolding count_where
  count-or p q [] = omega arith
  count-or p q (e ∷ es) = ground (arith, count-or p q es)

  pub count-required :
      (quota : ℕ) (sparse dense : List Chunk) (es : List (Entry f))
      → Once f es
      → count_where (required f quota sparse dense) es ≤ 2 * quota
  count-required quota sparse dense es once = omega (
    arith,
    count-or (λ e. has_hit f e.doc.id (take quota sparse))
        (λ e. has_hit f e.doc.id (take quota dense)) es,
    count-has_hit (take quota sparse) es once,
    count-has_hit (take quota dense) es once,
    length-take quota sparse,
    length-take quota dense,
  )
