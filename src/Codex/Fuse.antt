-- ===== src/Codex/Fuse.antt =====
-- `reciprocal_rank_fusion` of codex/adapters/outbound/retrieval/fuse.py. The floating point scores
-- are a parameter. A dictionary by id is a list of entries, one for each id.
pub mod Order
pub mod Counts
pub mod Quotas
pub mod Results
mod Tests
use reading_wiki.Prelude.{
  ℕ, zero, suc, ◌+◌, ◌==◌, Bool, true, false, not, ◌&&◌, ◌||◌, Option, none, some, List, [], ◌∷◌,
  ◌++◌, ltb, min, max, length, select, if◌then◌else◌,
}
use reading_wiki.Codex.Bm25.{Chunk}

-- `reciprocal n` is `1.0 / n`, and `above` is `>`.
pub record Scores : Type 1 where
  pub Score : Type 0
  pub none_yet : Score
  pub add : Score → Score → Score
  pub reciprocal : ℕ → Score
  pub above : Score → Score → Bool

-- `xs[:n]`
unfoldable pub take {ℓ} : {A : Type ℓ} → ℕ → List A → List A
take zero xs = []
take (suc n) [] = []
take (suc n) (x ∷ xs) = x ∷ take n xs

module _ (f : Scores) where
  open f use {Score, none_yet, add, reciprocal, above}

  -- `doc_map`, `scores` and `best_rank` at one id.
  pub record Entry : Type 0 where
    pub doc : Chunk
    pub score : Score
    pub best_rank : ℕ

  abbrev pub is_id : ℕ → Entry → Bool
  is_id i e = e.doc.id == i

  -- One round over the hits of a list.
  unfoldable pub add_hit : ℕ → ℕ → Chunk → List Entry → List Entry
  add_hit rrf_k rank hit [] =
      record { doc = hit; score = add none_yet (reciprocal (rrf_k + rank)); best_rank = rank } ∷ []
  add_hit rrf_k rank hit (e ∷ es) =
      if is_id hit.id e
      then record {
        doc = hit;
        score = add e.score (reciprocal (rrf_k + rank));
        best_rank = min rank e.best_rank;
      }
        ∷ es
      else e ∷ add_hit rrf_k rank hit es

  unfoldable pub add_hits : ℕ → ℕ → List Chunk → List Entry → List Entry
  unfolding add_hit
  add_hits rrf_k rank [] table = table
  add_hits rrf_k rank (hit ∷ hits) table =
      add_hits rrf_k (suc rank) hits (add_hit rrf_k rank hit table)

  -- The key `(-score, best_rank, id)` of `a` is smaller.
  unfoldable pub before : Entry → Entry → Bool
  before a b =
      above a.score b.score
      || (not (above b.score a.score)
          && (ltb a.best_rank b.best_rank || (a.best_rank == b.best_rank && ltb a.doc.id b.doc.id)))

  unfoldable pub insert_entry : Entry → List Entry → List Entry
  unfolding before
  insert_entry e [] = e ∷ []
  insert_entry e (x ∷ xs) = if before e x then e ∷ (x ∷ xs) else x ∷ insert_entry e xs

  -- `sorted(…, key=…)`
  unfoldable pub sort_entries : List Entry → List Entry
  unfolding insert_entry
  sort_entries [] = []
  sort_entries (e ∷ es) = insert_entry e (sort_entries es)

  -- ── the quota of each source ──

  abbrev pub has_hit : ℕ → List Chunk → Bool
  has_hit i [] = false
  has_hit i (h ∷ hs) = h.id == i || has_hit i hs

  -- `rounded` is `round(result_limit * ratio)`.
  abbrev pub quota_of : ℕ → ℕ → ℕ
  quota_of limit rounded = min limit (max 1 rounded)

  abbrev pub required : ℕ → List Chunk → List Chunk → Entry → Bool
  required quota sparse dense e =
      has_hit e.doc.id (take quota sparse) || has_hit e.doc.id (take quota dense)

  -- `selected.extend(…)`, which looks at the length as it grows.
  unfoldable pub extend : ℕ → (Entry → Bool) → List Entry → List Entry → List Entry
  extend limit req chosen [] = chosen
  extend limit req chosen (e ∷ es) =
      extend limit req
        (if not (req e) && ltb (length chosen) limit then chosen ++ (e ∷ []) else chosen) es

  unfoldable pub limited : ℕ → (Entry → Bool) → List Entry → List Entry
  unfolding extend sort_entries take
  limited limit req ordered =
      sort_entries (take limit (extend limit req (select req ordered) ordered))

  unfoldable pub fuse : ℕ → Option ℕ → ℕ → List Chunk → List Chunk → List Entry
  unfolding add_hits sort_entries limited
  fuse rrf_k result_limit rounded sparse dense =
      let ordered = sort_entries (add_hits rrf_k 1 dense (add_hits rrf_k 1 sparse [])) in
      elim result_limit [
        | none ↦ ordered
        | some limit ↦ limited limit (required (quota_of limit rounded) sparse dense) ordered
      ]

  -- `hybrid_search` of codex/adapters/outbound/retrieval/tools.py, after the two searches.
  unfoldable pub hybrid_hits : ℕ → ℕ → ℕ → List Chunk → List Chunk → List Entry
  unfolding fuse take
  hybrid_hits rrf_k k rounded sparse dense = take k (fuse rrf_k (some k) rounded sparse dense)
