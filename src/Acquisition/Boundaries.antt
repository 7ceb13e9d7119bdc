-- ===== src/Acquisition/Boundaries.antt =====
-- Where the segments of a document begin: `_boundaries`, `_pdf_toc_boundaries` and
-- `_boundary_points` of acquisition/adapters/outbound/importer/segment.py. A dictionary with
-- numbers for keys, which the code sorts at the end, is kept sorted; a set is one with no hints.
pub mod Ordered
use reading_wiki.Prelude.{
  ℕ, suc, ◌+◌, ◌-◌, ◌==◌, String, Bool, true, false, not, ◌&&◌, ◌||◌, Option, none, some, List, [],
  ◌∷◌, leb, ltb, min, length, if◌then◌else◌, strip,
}
use reading_wiki.Acquisition.Document.{Block, Document, is_heading, is_text}

abbrev pub Points : Type 0 → Type 0
Points A = List (ℕ × A)

-- `points.setdefault(i, v)`
unfoldable pub set_default : {A : Type 0} → ℕ → A → Points A → Points A
set_default i v [] = (i, v) ∷ []
set_default i v ((j, w) ∷ ps) =
    if i == j
    then (j, w) ∷ ps
    else if ltb i j
    then (i, v) ∷ ((j, w) ∷ ps)
    else (j, w) ∷ set_default i v ps

-- `a == b` on optional numbers
abbrev pub same_number : Option ℕ → Option ℕ → Bool
same_number none none = true
same_number (some a) (some b) = a == b
same_number _ _ = false

-- ── spine documents and headings ──

abbrev pub least : Option ℕ → Option ℕ → Option ℕ
least none b = b
least (some a) none = some a
least (some a) (some b) = some (min a b)

abbrev pub level_of : Block → Option ℕ
level_of b = elim b.level [
  | none ↦ none
  | some l ↦ if is_heading b.kind && ltb 0 l then some l else none
]

unfoldable pub dominant_heading_level : List Block → Option ℕ
dominant_heading_level [] = none
dominant_heading_level (b ∷ bs) = least (level_of b) (dominant_heading_level bs)

abbrev pub Hint : Type 0
Hint = Option String

abbrev pub add_if : Bool → ℕ → Points Hint → Points Hint
add_if c i bounds = if c then set_default i none bounds else bounds

abbrev pub changes_spine : ℕ → Option ℕ → Block → Bool
changes_spine i prev b = ltb 0 i && not (same_number b.spine_idx prev)

abbrev pub breaks : Option ℕ → Bool → Block → Bool
breaks dominant seen b = is_heading b.kind && (same_number b.level dominant && seen)

-- The loop of `_boundaries`, from the block of place `i` on.
unfoldable pub scan : Option ℕ → ℕ → Option ℕ → Bool → Points Hint → List Block → Points Hint
unfolding set_default
scan dominant i prev seen bounds [] = bounds
scan dominant i prev seen bounds (b ∷ bs) =
    let changed = changes_spine i prev b in
    let seen' = seen && not changed in
    let heads = breaks dominant seen' b in
    let seen'' = (is_text b.kind && not (is_heading b.kind)) || (seen' && not heads) in
    scan dominant (suc i) b.spine_idx seen'' (add_if heads i (add_if changed i bounds)) bs

unfoldable pub boundaries : List Block → Points Hint
unfolding scan dominant_heading_level
boundaries [] = []
boundaries (b ∷ bs) =
    scan (dominant_heading_level (b ∷ bs)) 0 b.spine_idx false ((0, none) ∷ []) (b ∷ bs)

-- ── the outline of a PDF ──

-- `first_at_page`, from the block of place `i` on.
unfoldable pub first_at_page : ℕ → Points ℕ → List Block → Points ℕ
unfolding set_default
first_at_page i pages [] = pages
first_at_page i pages (b ∷ bs) =
    first_at_page (suc i) (elim b.page [ none ↦ pages | some p ↦ set_default p i pages ]) bs

-- `idx_for_page`: the first page from `page0` on, or else the last, which is passed along.
unfoldable pub idx_for_page : ℕ → Points ℕ → ℕ → ℕ
idx_for_page page0 [] last = last
idx_for_page page0 ((p, i) ∷ ps) last = if leb page0 p then i else idx_for_page page0 ps i

unfoldable pub toc_points : Points ℕ → List (Option (String × ℕ)) → Points Hint → Points Hint
unfolding set_default idx_for_page
toc_points pages [] points = points
toc_points pages (none ∷ toc) points = toc_points pages toc points
toc_points pages (some (title, page) ∷ toc) points =
    toc_points pages toc (set_default (idx_for_page (page - 1) pages 0) (some (strip title)) points)

abbrev pub outline : List (Option (String × ℕ)) → Points ℕ → Option (Points Hint)
outline toc [] = none
outline toc (p ∷ ps) = some (set_default 0 (some "") (toc_points (p ∷ ps) toc []))

unfoldable pub pdf_toc_boundaries : Document → Option (Points Hint)
unfolding toc_points first_at_page
pdf_toc_boundaries d =
    if ltb (length d.toc) 2 then none else outline d.toc (first_at_page 0 [] d.blocks)

unfoldable pub boundary_points : Document → Points Hint
unfolding boundaries pdf_toc_boundaries
boundary_points d =
    if d.is_pdf
    then elim (pdf_toc_boundaries d) [ none ↦ boundaries d.blocks | some points ↦ points ]
    else boundaries d.blocks
