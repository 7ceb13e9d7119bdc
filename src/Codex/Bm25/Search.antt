-- ===== src/Codex/Bm25/Search.antt =====
-- What a search gives: what an index of the chunks in sight alone would give.
use reading_wiki.Prelude.{
  ℕ, ◌≡◌, refl, sym, String, Bool, true, false, ◌||◌, Option, none, some, List, [], ◌∷◌, leb, min,
  length, get_elem?, All, All-select, arith, Bool-cases, inl, inr, if◌then◌else◌,
}
use mathlib.Core.List.{map}
use reading_wiki.Codex.Bm25.{
  Chunk, Engine, Manager, Hit, index_of, eligible, text_of, is_empty, no_retriever, add_hit, hits,
  hits_of, results_of, search, ensure_loaded, rebuild, empty_manager,
}
use reading_wiki.Codex.Bm25.Places.{
  visible, is_visible, eligible-Points, length-Points, get_elem?-Points, get_elem?-visible,
}
use reading_wiki.Codex.Bm25.Valid.{
  IsFaithful, IsValid, empty-IsValid, rebuild-IsValid, ensure_loaded-IsValid,
}
use reading_wiki.Codex.Bm25.Prefixes.{retriever_for_ceiling-Chosen}

module _ (e : Engine) where
  open e use {Retriever, Score, build, retrieve, positive}

  -- The vocabulary of texts is empty exactly when none of them has words.
  pub record HasWords : Type 0 where
    pub has_words : String → Bool
    pub words_of : (ts : List String) → build ts ≡ none → All (λ t. has_words t ≡ false) ts
    pub no_words : (ts : List String) → All (λ t. has_words t ≡ false) ts → build ts ≡ none

  abbrev pub add_found : Option Chunk → Score → List (Hit e) → List (Hit e)
  add_found none score rest = rest
  add_found (some c) score rest = record { chunk = c; score = score } ∷ rest

  unfoldable pub found : List Chunk → List (ℕ × Score) → List (Hit e)
  found chunks [] = []
  found chunks ((i, score) ∷ results) =
      let rest = found chunks results in
      if positive score then add_found (get_elem? chunks i) score rest else rest

  abbrev pub found_of : List Chunk → Option (List (ℕ × Score)) → List (Hit e)
  found_of chunks none = []
  found_of chunks (some results) = found chunks results

  -- A search in an index of its own for some chunks, with no ceiling and no cache.
  unfoldable pub search_in : List Chunk → String → ℕ → List (Hit e)
  unfolding found
  search_in chunks query k =
      found_of chunks (results_of e (index_of e chunks) query (min k (length chunks)))

  module _ (ceiling : ℕ) (corpus : List Chunk) where
    add-found :
        (o : Option Chunk) (score : Score) (rest : List (Hit e))
        → ((c : Chunk) → o ≡ some c → leb c.chapter ceiling ≡ true)
        → add_hit e ceiling o score rest ≡ add_found o score rest
    add-found none score rest seen = refl
    add-found (some c) score rest seen = rw (seen c refl)

    hits-found :
        (results : List (ℕ × Score))
        → hits e ceiling corpus (eligible ceiling corpus) results
          ≡ found (visible ceiling corpus) results
    unfolding hits found
    hits-found [] = refl
    hits-found ((i, score) ∷ results) =
        let p = eligible-Points ceiling corpus in
        let same = get_elem?-Points corpus (eligible ceiling corpus) (visible ceiling corpus) i p in
        elim (Bool-cases (positive score)) [
          | inl hit ↦
              rw (hit, hits-found results, same)
                (add-found (get_elem? (visible ceiling corpus) i) score
                  (found (visible ceiling corpus) results)
                  (λ c h. get_elem?-visible ceiling corpus i {c = c} h))
          | inr miss ↦ rw (miss, hits-found results)
        ]

    hits_of-found :
        (o : Option (List (ℕ × Score)))
        → hits_of e ceiling corpus (eligible ceiling corpus) o ≡ found_of (visible ceiling corpus) o
    hits_of-found none = refl
    hits_of-found (some results) = hits-found results

  module _ (w : HasWords) where
    abbrev IsWordless : Chunk → Type 0
    IsWordless c = w.has_words (text_of c) ≡ false

    chunks-IsWordless :
        (cs : List Chunk) → All (λ t. w.has_words t ≡ false) (map text_of cs) → All IsWordless cs
    chunks-IsWordless [] all = tt
    chunks-IsWordless (c ∷ cs) all = (all.0, chunks-IsWordless cs all.1)

    texts_wordless :
        (cs : List Chunk) → All IsWordless cs → All (λ t. w.has_words t ≡ false) (map text_of cs)
    texts_wordless [] all = tt
    texts_wordless (c ∷ cs) all = (all.0, texts_wordless cs all.1)

    index_of-none : (cs : List Chunk) → index_of e cs ≡ none → All IsWordless cs
    unfolding index_of
    index_of-none [] h = tt
    index_of-none (c ∷ cs) h = chunks-IsWordless (c ∷ cs) (w.words_of (map text_of (c ∷ cs)) h)

    none_of_wordless : (cs : List Chunk) → All IsWordless cs → index_of e cs ≡ none
    unfolding index_of
    none_of_wordless [] all = refl
    none_of_wordless (c ∷ cs) all = w.no_words (map text_of (c ∷ cs)) (texts_wordless (c ∷ cs) all)

    -- Where the whole corpus has no index, no part of it has one.
    no_index :
        (ceiling : ℕ) (cs : List Chunk)
        → index_of e cs ≡ none
        → index_of e (visible ceiling cs) ≡ none
    no_index ceiling cs h =
        none_of_wordless (visible ceiling cs)
          (All-select IsWordless (is_visible ceiling) cs (index_of-none cs h))

    nothing_found :
        (chunks : List Chunk) (query : String) (k : ℕ)
        → index_of e chunks ≡ none
        → search_in chunks query k ≡ []
    unfolding search_in
    nothing_found chunks query k h = rw h

    empty_index : (cs : List Chunk) → is_empty e cs ≡ true → index_of e cs ≡ none
    unfolding index_of
    empty_index [] h = refl
    empty_index (c ∷ cs) h = absurd (ground (arith, h))

    nothing_indexed :
        (cs : List Chunk) (o : Option Retriever)
        → o ≡ index_of e cs
        → (is_empty e cs || no_retriever e o) ≡ true
        → index_of e cs ≡ none
    nothing_indexed [] o h out = empty_index [] refl
    nothing_indexed (c ∷ cs) none h out = sym h
    nothing_indexed (c ∷ cs) (some r) h out = absurd (ground (arith, out))

    -- A search finds what an index of the chunks up to the ceiling alone would find: later chapters
    -- change neither the hits nor their scores and order, whatever has been searched before.
    pub search-search_in :
        (size : ℕ) (m : Manager e) (query : String) (ceiling k : ℕ)
        → IsValid e m
        → (search e size m query ceiling k).0 ≡ search_in (visible ceiling m.corpus) query k
    unfolding search search_in
    search-search_in size m query ceiling k v =
        elim (Bool-cases (is_empty e m.corpus || no_retriever e m.retriever)) [
          | inl out ↦ rw out (
              sym (
                nothing_found (visible ceiling m.corpus) query k
                  (no_index ceiling m.corpus (nothing_indexed m.corpus m.retriever v.indexed out))))
          | inr there ↦
              let chosen = retriever_for_ceiling-Chosen e size m ceiling v in
              let points = eligible-Points ceiling m.corpus in
              rw there (
                rw (chosen.places, chosen.index, length-Points m.corpus _ _ points)
                  (hits_of-found ceiling m.corpus _))
        ]

  pub search-IsValid :
      (size : ℕ) (m : Manager e) (query : String) (ceiling k : ℕ)
      → IsValid e m
      → IsValid e (search e size m query ceiling k).1
  unfolding search
  search-IsValid size m query ceiling k v =
      elim (Bool-cases (is_empty e m.corpus || no_retriever e m.retriever)) [
        | inl out ↦ rw out v
        | inr there ↦ rw there (record {
          indexed = v.indexed;
          current = (retriever_for_ceiling-Chosen e size m ceiling v).current;
          stored = v.stored;
        })
      ]

-- The calls of a manager, with what the database and the disk then give.
pub data Call : Type 0 where
  ensure : List Chunk → Bool → Call
  refresh : List Chunk → Call
  look : String → ℕ → ℕ → Call

module _ (e : Engine) (size : ℕ) where
  unfoldable pub call : Call → Manager e → Manager e
  call (ensure rows readable) m = ensure_loaded e rows readable m
  call (refresh rows) m = rebuild e rows m
  call (look query ceiling k) m = (search e size m query ceiling k).1

  unfoldable pub call_all : List Call → Manager e → Manager e
  call_all [] m = m
  call_all (c ∷ cs) m = call_all cs (call c m)

  call-IsValid : IsFaithful e → (c : Call) (m : Manager e) → IsValid e m → IsValid e (call c m)
  unfolding call
  call-IsValid faithful (ensure rows readable) m v =
      ensure_loaded-IsValid e faithful rows readable m v
  call-IsValid faithful (refresh rows) m v = rebuild-IsValid e rows m v
  call-IsValid faithful (look query ceiling k) m v = search-IsValid e size m query ceiling k v

  call_all-IsValid :
      IsFaithful e → (cs : List Call) (m : Manager e) → IsValid e m → IsValid e (call_all cs m)
  unfolding call_all
  call_all-IsValid faithful [] m v = v
  call_all-IsValid faithful (c ∷ cs) m v =
      call_all-IsValid faithful cs (call c m) (call-IsValid faithful c m v)

  -- After any calls, a search finds what an index of the chunks up to the ceiling alone would find,
  -- in the same order and with the same scores: neither later chapters, nor what was searched or
  -- cached before, nor an index on disk changes it. This is where a signature names one corpus, and
  -- texts without words are those that leave the vocabulary empty.
  pub call_all-search_in :
      (faithful : IsFaithful e) (w : HasWords e) (cs : List Call) (query : String) (ceiling k : ℕ)
      → let m = call_all cs (empty_manager e) in
        (search e size m query ceiling k).0 ≡ search_in e (visible ceiling m.corpus) query k
  call_all-search_in faithful w cs query ceiling k =
      search-search_in e w size (call_all cs (empty_manager e)) query ceiling k
        (call_all-IsValid faithful cs (empty_manager e) (empty-IsValid e))
