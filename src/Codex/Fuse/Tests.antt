-- ===== src/Codex/Fuse/Tests.antt =====
-- A search for four hits, with scores in millionths.
use reading_wiki.Prelude.{
  ℕ, ◌+◌, ◌/◌, ◌≤◌, ◌≡◌, refl, List, [], ◌∷◌, ltb, arith, All, length, count_where, select,
}
use mathlib.Core.List.{map}
use reading_wiki.Codex.Bm25.{Chunk}
use reading_wiki.Codex.Fuse.{Scores, Entry, is_id, hybrid_hits, take}
use reading_wiki.Codex.Fuse.Order.{IsOrder, InOrder}
use reading_wiki.Codex.Fuse.Quotas.{Once}
use reading_wiki.Codex.Fuse.Results.{hybrid_hits-Fair}

abbrev millionths : Scores
millionths = record {
  Score = ℕ;
  none_yet = 0;
  add = λ a b. a + b;
  reciprocal = λ n. 1000000 / n;
  above = λ a b. ltb b a;
}

millionths-IsOrder : IsOrder millionths
millionths-IsOrder = record { asymmetric = λ a b. ground arith; splits = λ a b c. ground arith }

abbrev a_chunk : ℕ → Chunk
a_chunk i = record { id = i; chapter = i; text = "text" }

abbrev sparse : List Chunk
sparse = a_chunk 3 ∷ (a_chunk 1 ∷ (a_chunk 5 ∷ []))

abbrev dense : List Chunk
dense = a_chunk 2 ∷ (a_chunk 3 ∷ (a_chunk 1 ∷ (a_chunk 4 ∷ [])))

abbrev found : List (Entry millionths)
found = hybrid_hits millionths 60 4 2 sparse dense

ids_found : map (λ e. e.doc.id) found ≡ 3 ∷ (1 ∷ (2 ∷ (5 ∷ [])))
unfolding hybrid_hits take select
ids_found = refl

hybrid_hits-Fair_example :
    InOrder millionths found
    × (length found ≤ 4)
    × Once millionths found
    × All (λ e. e.doc.chapter ≤ 5) found
    × (1 ≤ count_where (is_id millionths 2) found)
unfolding take
hybrid_hits-Fair_example =
    hybrid_hits-Fair millionths millionths-IsOrder 60 4 2 sparse dense (omega arith) 5 2
      (omega arith) (omega arith) refl
