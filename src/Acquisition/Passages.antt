-- ===== src/Acquisition/Passages.antt =====
-- The blocks of a segment, their words, its title and first line, from the functions of
-- acquisition/adapters/outbound/importer/segment.py.
use Prim.Native.Char.{code}
use reading_wiki.Prelude.{
  ℕ, zero, suc, ◌+◌, ◌==◌, String, Bool, true, not, ◌&&◌, ◌||◌, Option, none, some, List, [], ◌∷◌,
  get_or, if◌then◌else◌, clip, lower, truthy, is_space, str_eq, text_append, decimal,
}
use reading_wiki.Acquisition.Document.{Block, is_heading, is_paragraph, is_text}
use reading_wiki.Acquisition.Boundaries.{Hint}

-- `blocks[start:stop]`
unfoldable pub slice {ℓ} : {A : Type ℓ} → ℕ → ℕ → List A → List A
slice start stop [] = []
slice start zero (b ∷ bs) = []
slice zero (suc stop) (b ∷ bs) = b ∷ slice zero stop bs
slice (suc start) (suc stop) (b ∷ bs) = slice start stop bs

abbrev pub count_solid : String → ℕ
count_solid String.[] = 0
count_solid (String.◌∷◌ c s) = if is_space (code c) then count_solid s else suc (count_solid s)

-- The words that begin in a text, after a character that was blank or not.
abbrev pub count_words : Bool → String → ℕ
count_words blank String.[] = 0
count_words blank (String.◌∷◌ c s) =
    let rest = count_words (is_space (code c)) s in
    if blank && not (is_space (code c)) then suc rest else rest

abbrev pub is_cjk : String → Bool
is_cjk language =
    let code2 = clip 2 (lower (if truthy language then language else "en")) in
    str_eq code2 "zh" || (str_eq code2 "ja" || str_eq code2 "ko")

unfoldable pub word_count : String → String → ℕ
word_count text language = if is_cjk language then count_solid text else count_words true text

unfoldable pub words_of : String → List Block → ℕ
unfolding word_count
words_of language [] = 0
words_of language (b ∷ bs) =
    (if is_text b.kind then word_count b.text language else 0) + words_of language bs

abbrev pub first_text : (Block → Bool) → List Block → Option String
first_text p [] = none
first_text p (b ∷ bs) =
    let rest = first_text p bs in if p b && truthy b.text then some b.text else rest

abbrev pub any_block : Block → Bool
any_block b = true

unfoldable pub first_line : List Block → String
first_line blocks = elim (first_text (λ b. is_paragraph b.kind) blocks) [
  | some t ↦ clip 140 t
  | none ↦ clip 140 (get_or (first_text any_block blocks) "")
]

-- `spine_titles.get(sp)`; a later entry of the dictionary replaces an earlier one.
abbrev pub spine_entry : ℕ → List (ℕ × Option String) → Option (Option String)
spine_entry sp [] = none
spine_entry sp ((i, t) ∷ rest) = elim (spine_entry sp rest) [
  | some entry ↦ some entry
  | none ↦ if i == sp then some t else none
]

abbrev pub first_spine_title : List Block → List (ℕ × Option String) → String
first_spine_title [] spine = ""
first_spine_title (b ∷ bs) spine = elim b.spine_idx [
  | none ↦ ""
  | some sp ↦ get_or (get_or (spine_entry sp spine) none) ""
]

unfoldable pub segment_title : List Block → List (ℕ × Option String) → ℕ → Hint → String
segment_title blocks spine n hint =
    if truthy (get_or hint "")
    then get_or hint ""
    else elim (first_text (λ b. is_heading b.kind) blocks) [
      | some t ↦ t
      | none ↦
          if truthy (first_spine_title blocks spine)
          then first_spine_title blocks spine
          else text_append "Section " (decimal n)
    ]
