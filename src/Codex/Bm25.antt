-- ===== src/Codex/Bm25.antt =====
-- `BM25Manager` of codex/adapters/outbound/retrieval/bm25.py, without its threads. Chapter numbers
-- and ceilings are only compared, so a number stands for its place in their order.
pub mod Places
pub mod Valid
pub mod Prefixes
pub mod Search
mod Tests
use reading_wiki.Prelude.{
  ℕ, suc, ◌+◌, ◌==◌, ◌≡◌, String, Bool, true, false, not, ◌||◌, Option, none, some, List, [], ◌∷◌,
  ◌++◌, leb, ltb, min, length, get_elem?, select, if◌then◌else◌,
}
use mathlib.Core.List.{map}

pub record Chunk : Type 0 where
  pub id : ℕ
  pub chapter : ℕ
  pub text : String

-- The search library, NumPy and hashing. `build` tokenizes and indexes; it gives none where the
-- vocabulary is empty. `retrieve` gives documents by their place, with scores, or raises.
pub record Engine : Type 1 where
  pub Retriever : Type 0
  pub Score : Type 0
  pub Signature : Type 0
  pub build : List String → Option Retriever
  pub retrieve : Retriever → String → ℕ → Option (List (ℕ × Score))
  pub positive : Score → Bool
  pub signature : List Chunk → Signature
  pub same_signature : Signature → Signature → Bool

-- `np.flatnonzero(self.chapter_arr <= chapter_ceiling)`, from place `n` on.
unfoldable pub eligible_from : ℕ → ℕ → List Chunk → List ℕ
eligible_from ceiling n [] = []
eligible_from ceiling n (c ∷ cs) =
    let rest = eligible_from ceiling (suc n) cs in if leb c.chapter ceiling then n ∷ rest else rest

abbrev pub eligible : ℕ → List Chunk → List ℕ
eligible ceiling corpus = eligible_from ceiling 0 corpus

-- `[self.corpus[i] for i in places]`
unfoldable pub at_places : List Chunk → List ℕ → List Chunk
at_places corpus [] = []
at_places corpus (i ∷ is) = elim (get_elem? corpus i) [
  | none ↦ at_places corpus is
  | some c ↦ c ∷ at_places corpus is
]

abbrev pub text_of : Chunk → String
text_of c = c.text

-- `self.corpus[eligible[i]]`, where there is such a place.
abbrev pub chunk_at : List Chunk → Option ℕ → Option Chunk
chunk_at corpus none = none
chunk_at corpus (some j) = get_elem? corpus j

module _ (e : Engine) where
  open e use {Retriever, Score, Signature, build, retrieve, positive, signature, same_signature}

  abbrev pub Entry : Type 0
  Entry = ℕ × (Option Retriever × List ℕ)

  -- `prefixes` is `_prefix_retrievers`, oldest first, and `disk` the index and its meta file.
  pub record Manager : Type 0 where
    pub corpus : List Chunk
    pub retriever : Option Retriever
    pub prefixes : List Entry
    pub loaded : Bool
    pub disk : Option (Signature × Retriever)

  abbrev pub empty_manager : Manager
  empty_manager = record {
    corpus = [];
    retriever = none;
    prefixes = [];
    loaded = false;
    disk = none;
  }

  -- ── build, persist, load ──

  -- `_build_retriever`: what it leaves in `self.retriever`.
  unfoldable pub index_of : List Chunk → Option Retriever
  index_of [] = none
  index_of (c ∷ cs) = build (map text_of (c ∷ cs))

  -- `_load_corpus_rows`
  unfoldable pub load_corpus : List Chunk → Manager → Manager
  load_corpus rows m = record m { corpus = rows; prefixes = [] }

  unfoldable pub build_retriever : Manager → Manager
  build_retriever m = record m { retriever = index_of m.corpus; prefixes = [] }

  abbrev pub saved :
      Option Retriever
      → List Chunk
      → Option (Signature × Retriever)
      → Option (Signature × Retriever)
  saved none corpus disk = disk
  saved (some r) corpus disk = some (signature corpus, r)

  unfoldable pub save : Manager → Manager
  save m = record m { disk = saved m.retriever m.corpus m.disk }

  -- `_try_load_from_disk`: the index on disk, if it can be read and is that of the corpus.
  unfoldable pub load_from_disk : Bool → Manager → Option Retriever
  load_from_disk readable m = elim m.disk [
    | none ↦ none
    | some (s, r) ↦
        if not readable || not (same_signature s (signature m.corpus)) then none else some r
  ]

  abbrev pub is_empty : List Chunk → Bool
  is_empty [] = true
  is_empty (c ∷ cs) = false

  abbrev pub mark_loaded : Manager → Manager
  mark_loaded m = record m { loaded = true }

  abbrev pub build_and_save : Manager → Manager
  build_and_save m = mark_loaded (save (build_retriever m))

  unfoldable pub load_or_build_index : List Chunk → Bool → Manager → Manager
  unfolding load_corpus build_retriever save load_from_disk
  load_or_build_index rows readable m =
      let m' : Manager = load_corpus rows m in
      if is_empty rows
      then mark_loaded (record m' { retriever = none })
      else elim (load_from_disk readable m') [
        | none ↦ build_and_save m'
        | some r ↦ mark_loaded (record m' { retriever = some r })
      ]

  unfoldable pub ensure_loaded : List Chunk → Bool → Manager → Manager
  ensure_loaded rows readable m = if m.loaded then m else load_or_build_index rows readable m

  unfoldable pub rebuild : List Chunk → Manager → Manager
  unfolding load_corpus build_retriever save
  rebuild rows m =
      let m' : Manager = load_corpus rows m in
      if is_empty rows then mark_loaded (record m' { retriever = none }) else build_and_save m'

  -- ── the index of a ceiling ──

  unfoldable pub find_entry : ℕ → List Entry → Option (Option Retriever × List ℕ)
  find_entry key [] = none
  find_entry key ((k, v) ∷ es) = if k == key then some v else find_entry key es

  unfoldable pub remove_entry : ℕ → List Entry → List Entry
  remove_entry key [] = []
  remove_entry key ((k, v) ∷ es) = if k == key then es else (k, v) ∷ remove_entry key es

  -- `while len(...) > BM25_PREFIX_CACHE_SIZE: popitem(last=False)`
  unfoldable pub trim : ℕ → List Entry → List Entry
  trim size [] = []
  trim size (x ∷ es) =
      let rest = trim size es in if ltb size (length (x ∷ es)) then rest else x ∷ es

  -- The index of a prefix: the one that is cached, which is moved to the end, or a new one.
  unfoldable pub use_prefix :
      ℕ
      → List Chunk
      → List Entry
      → List ℕ
      → Option (Option Retriever × List ℕ)
      → (Option Retriever × List ℕ) × List Entry
  use_prefix size corpus prefixes places (some v) =
      (v, remove_entry (length places) prefixes ++ ((length places, v) ∷ []))
  use_prefix size corpus prefixes places none =
      let v : Option Retriever × List ℕ = (build (map text_of (at_places corpus places)), places) in
      (v, trim size (prefixes ++ ((length places, v) ∷ [])))

  -- `_retriever_for_ceiling`, with the cache that it leaves.
  unfoldable pub retriever_for_ceiling : ℕ → Manager → ℕ → (Option Retriever × List ℕ) × List Entry
  unfolding use_prefix
  retriever_for_ceiling size m ceiling =
      let places = eligible ceiling m.corpus in
      if length places == 0
      then ((none, places), m.prefixes)
      else if length places == length m.corpus
      then ((m.retriever, places), m.prefixes)
      else use_prefix size m.corpus m.prefixes places (find_entry (length places) m.prefixes)

  -- ── query ──

  pub record Hit : Type 0 where
    pub chunk : Chunk
    pub score : Score

  abbrev pub add_hit : ℕ → Option Chunk → Score → List Hit → List Hit
  add_hit ceiling none score rest = rest
  add_hit ceiling (some c) score rest =
      if leb c.chapter ceiling then record { chunk = c; score = score } ∷ rest else rest

  -- The loop over the results; the places that `retrieve` gives are those of its documents.
  unfoldable pub hits : ℕ → List Chunk → List ℕ → List (ℕ × Score) → List Hit
  hits ceiling corpus places [] = []
  hits ceiling corpus places ((i, score) ∷ results) =
      let rest = hits ceiling corpus places results in
      if positive score
      then add_hit ceiling (chunk_at corpus (get_elem? places i)) score rest
      else rest

  abbrev pub results_of : Option Retriever → String → ℕ → Option (List (ℕ × Score))
  results_of none query k = none
  results_of (some r) query k = if k == 0 then none else retrieve r query k

  abbrev pub hits_of : ℕ → List Chunk → List ℕ → Option (List (ℕ × Score)) → List Hit
  hits_of ceiling corpus places none = []
  hits_of ceiling corpus places (some results) = hits ceiling corpus places results

  abbrev pub no_retriever : Option Retriever → Bool
  no_retriever none = true
  no_retriever (some r) = false

  unfoldable pub search : ℕ → Manager → String → ℕ → ℕ → List Hit × Manager
  unfolding retriever_for_ceiling
  search size m query ceiling k =
      if is_empty m.corpus || no_retriever m.retriever
      then ([], m)
      else let ((r, places), prefixes) = retriever_for_ceiling size m ceiling in
        (
          hits_of ceiling m.corpus places (results_of r query (min k (length places))),
          record m { prefixes = prefixes },
        )
