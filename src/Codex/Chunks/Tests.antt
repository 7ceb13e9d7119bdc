-- ===== src/Codex/Chunks/Tests.antt =====
-- Chunks of small texts, with a token for each character.
use Prim.Native.String.{String}
use reading_wiki.Prelude.{ℕ, suc, ◌≡◌, refl, some, List, [], ◌∷◌, strip, lstrip, rstrip}
use reading_wiki.Errors.{ok}
use reading_wiki.Codex.Chunks.{chunk_chapter_text, chunk_pieces, group, overflow, save, backtrack}
use reading_wiki.Codex.Chunks.Pieces.{
  pieces_of, refine, split_breaks, split_by_sentences, split_ends, strip_all, join, append,
}
use reading_wiki.Codex.Chunks.Cover.{Cover}

abbrev characters : String → ℕ
characters String.[] = 0
characters (String.◌∷◌ c s) = suc (characters s)

abbrev sample : String
sample = "one\n\ntwo\n\nthree. four? five\n\n \n\nsix"

sample_pieces :
    pieces_of characters 8 sample ≡ "one" ∷ "two" ∷ "three." ∷ "four?" ∷ "five" ∷ "six" ∷ []
unfolding pieces_of refine split_breaks split_by_sentences split_ends strip_all strip lstrip rstrip
sample_pieces = refl

sample_chunks :
    chunk_chapter_text characters 8 3 sample
    ≡ some (ok ("one\n\ntwo" ∷ "three." ∷ "four?" ∷ "five\n\nsix" ∷ []))
unfolding chunk_chapter_text chunk_pieces group overflow save backtrack pieces_of refine
    split_breaks split_by_sentences split_ends strip_all strip lstrip rstrip join append
sample_chunks = refl
