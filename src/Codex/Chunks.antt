-- ===== src/Codex/Chunks.antt =====
-- `chunk_chapter_text` of codex/adapters/outbound/ingest/chunk.py. `count_tokens` is a parameter,
-- since the encoder is a library.
pub mod Pieces
pub mod Cover
pub mod Rounds
mod Tests
use reading_wiki.Prelude.{
  ℕ, zero, suc, ◌+◌, ◌-◌, ◌*◌, ◌==◌, String, Bool, true, false, Option, none, some, List, [], ◌∷◌,
  leb, min, length, if◌then◌else◌,
}
use mathlib.Core.List.{reverse, map}
use mathlib.Core.Option
use reading_wiki.Errors.{Result, ok, err, value_error}
use Pieces.{pieces_of, join}

-- The chunks still to come, by a continuation of the loop.
abbrev pub Rounds : Type 0 → Type 0
Rounds A = List A → List A → ℕ → Option (List (List A))

module _ {A : Type 0} (cost : A → ℕ) where
  unfoldable pub total : List A → ℕ
  total [] = 0
  total (x ∷ xs) = cost x + total xs

  -- The pieces that the next chunk begins with, and `overlap_accum`. A chunk in the making is held
  -- last piece first, so that they are the first ones of the list.
  unfoldable pub backtrack : ℕ → ℕ → List A → List A × ℕ
  backtrack available accum [] = ([], accum)
  backtrack available accum (x ∷ xs) =
      let (kept, accum') = backtrack available (accum + cost x) xs in
      if leb (accum + cost x) available then (x ∷ kept, accum') else ([], accum)

module _ {A : Type 0} (cost : A → ℕ) (target overlap : ℕ) where
  abbrev pub available_overlap : A → ℕ
  available_overlap piece = min overlap (target - cost piece)

  -- The chunk `current` is saved, where `waiting` pieces are left.
  unfoldable pub save : Rounds A → List A → List A → Option (List (List A))
  save next [] current = some (reverse current ∷ [])
  save next (piece ∷ waiting) current =
      let (kept, accum) = backtrack cost (available_overlap piece) 0 current in
      Option.map (λ chunks. reverse current ∷ chunks) (next (piece ∷ waiting) kept accum)

  -- The piece does not fit: it is forced in where the chunk is empty.
  unfoldable pub overflow : Rounds A → A → List A → List A → Option (List (List A))
  overflow next piece waiting [] = save next waiting (piece ∷ [])
  overflow next piece waiting (x ∷ current) = save next (piece ∷ waiting) (x ∷ current)

  -- `while i < len(pieces)`, with `waiting` for `pieces[i:]`, and what follows the loop.
  unfoldable pub group : ℕ → Rounds A
  group zero waiting current tokens = none
  group (suc fuel) [] [] tokens = some []
  group (suc fuel) [] (x ∷ current) tokens = some (reverse (x ∷ current) ∷ [])
  group (suc fuel) (piece ∷ waiting) current tokens = elim (leb (tokens + cost piece) target) [
    | true ↦ group fuel waiting (piece ∷ current) (tokens + cost piece)
    | false ↦ overflow (group fuel) piece waiting current
  ]

  unfoldable pub chunk_pieces : List A → Option (List (List A))
  chunk_pieces pieces = group (2 * length pieces + 1) pieces [] 0

-- Two rounds for each piece are enough, so that `none` does not occur.
unfoldable pub chunk_chapter_text : (String → ℕ) → ℕ → ℕ → String → Option (Result (List String))
chunk_chapter_text count_tokens target overlap text =
    if target == 0
    then some (err value_error)
    else Option.map (λ chunks. ok (map join chunks))
        (chunk_pieces count_tokens target overlap (pieces_of count_tokens target text))
