-- ===== src/Codex/Bm25/Tests.antt =====
-- An engine that finds the chunks whose text is the query, with signatures that list the chunks.
use Prim.Native.String.{String}
use reading_wiki.Prelude.{
  ℕ, suc, ◌==◌, ◌≡◌, refl, Bool, true, false, ◌&&◌, ◌||◌, none, some, List, [], ◌∷◌, arith,
  if◌then◌else◌, All, truthy, str_eq, eq_iff, leb,
}
use reading_wiki.Codex.Bm25.{
  Chunk, Engine, empty_manager, search, index_of, eligible_from, at_places, hits,
  retriever_for_ceiling, use_prefix, find_entry, remove_entry, trim, load_or_build_index,
  load_corpus, build_retriever, save, load_from_disk, ensure_loaded, rebuild,
}
use reading_wiki.Codex.Bm25.Places.{visible}
use reading_wiki.Codex.Bm25.Valid.{IsFaithful}
use reading_wiki.Codex.Bm25.Search.{HasWords, Call, call, call_all, search_in, call_all-search_in}

abbrev any_text : List String → Bool
any_text [] = false
any_text (t ∷ ts) = truthy t || any_text ts

abbrev same_chunk : Chunk → Chunk → Bool
same_chunk a b = a.id == b.id && (a.chapter == b.chapter && str_eq a.text b.text)

abbrev same_chunks : List Chunk → List Chunk → Bool
same_chunks [] [] = true
same_chunks [] (y ∷ ys) = false
same_chunks (x ∷ xs) [] = false
same_chunks (x ∷ xs) (y ∷ ys) = same_chunk x y && same_chunks xs ys

abbrev matching : ℕ → List String → String → List (ℕ × ℕ)
matching i [] query = []
matching i (t ∷ ts) query =
    let rest = matching (suc i) ts query in if str_eq t query then (i, 1) ∷ rest else rest

abbrev engine : Engine
engine = record {
  Retriever = List String;
  Score = ℕ;
  Signature = List Chunk;
  build = λ ts. if any_text ts then some ts else none;
  retrieve = λ ts query k. some (matching 0 ts query);
  positive = λ score. leb 1 score;
  signature = λ chunks. chunks;
  same_signature = same_chunks;
}

same_chunk_eq : (x y : Chunk) → same_chunk x y ≡ true → x ≡ y
same_chunk_eq x y h = ground (arith, eq_iff x.text y.text)

same_chunks_eq : (xs ys : List Chunk) → same_chunks xs ys ≡ true → xs ≡ ys
same_chunks_eq [] [] h = refl
same_chunks_eq [] (y ∷ ys) h = absurd (ground (arith, h))
same_chunks_eq (x ∷ xs) [] h = absurd (ground (arith, h))
same_chunks_eq (x ∷ xs) (y ∷ ys) h = ground (arith, same_chunk_eq x y, same_chunks_eq xs ys)

engine-IsFaithful : IsFaithful engine
unfolding IsFaithful
engine-IsFaithful = same_chunks_eq

no_text : (ts : List String) → any_text ts ≡ false → All (λ t. truthy t ≡ false) ts
no_text [] h = tt
no_text (t ∷ ts) h = (ground (arith, h), no_text ts (ground (arith, h)))

words_of : (ts : List String) → engine.build ts ≡ none → All (λ t. truthy t ≡ false) ts
words_of ts h = no_text ts (ground (arith, h))

All-empty : (ts : List String) → All (λ t. truthy t ≡ false) ts → any_text ts ≡ false
All-empty [] all = refl
All-empty (t ∷ ts) all = ground (arith, all.0, All-empty ts all.1)

no_words : (ts : List String) → All (λ t. truthy t ≡ false) ts → engine.build ts ≡ none
no_words ts all = rw (All-empty ts all)

engine_words : HasWords engine
engine_words = record { has_words = truthy; words_of = words_of; no_words = no_words }

abbrev first_chunk : Chunk
first_chunk = record { id = 11; chapter = 1; text = "a duel" }

abbrev late_chunk : Chunk
late_chunk = record { id = 12; chapter = 9; text = "a duel" }

abbrev calls : List Call
calls =
    Call.ensure (first_chunk ∷ late_chunk ∷ []) true
    ∷ Call.look "a duel" 9 5
    ∷ Call.look "a duel" 4 5
    ∷ []

-- A reader at chapter 4 sees one of the two duels.
early_search :
    (search engine 2 (call_all engine 2 calls (empty_manager engine)) "a duel" 4 5).0
    ≡ record { chunk = first_chunk; score = 1 } ∷ []
unfolding search index_of eligible_from at_places hits retriever_for_ceiling use_prefix find_entry
    remove_entry trim load_or_build_index load_corpus build_retriever save load_from_disk
    ensure_loaded rebuild call call_all
early_search = refl

call_all-search_in_example :
    (search engine 2 (call_all engine 2 calls (empty_manager engine)) "a duel" 4 5).0
    ≡ search_in engine
        (visible 4 (call_all engine 2 calls (empty_manager engine)).corpus)
        "a duel"
        5
call_all-search_in_example =
    call_all-search_in engine 2 engine-IsFaithful engine_words calls "a duel" 4 5
