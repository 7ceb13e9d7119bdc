-- ===== src/Acquisition/Segments/Partition.antt =====
-- The segments of a plan divide the blocks of the document.
use reading_wiki.Prelude.{
  ℕ, zero, suc, ◌-◌, ◌≤◌, ◌<◌, ◌≡◌, refl, some, List, [], ◌∷◌, length, arith, subst, ◌∙◌,
}
use mathlib.Core.List.{map}
use reading_wiki.Acquisition.Document.{Document}
use reading_wiki.Acquisition.Boundaries.{Points, Hint, boundary_points}
use reading_wiki.Acquisition.Boundaries.Ordered.{Ascends, first_key, boundary_points-BeginsAt0}
use reading_wiki.Acquisition.Titles.{Patterns}
use reading_wiki.Acquisition.Passages.{slice}
use reading_wiki.Acquisition.Segments.{
  Raw, Segment, stop_of, raw_segment, raw_segments, number_one, assign_from,
  assign_numbers_and_parts, Numbering, with_ids, build_plan,
}

-- The first and the last block of a segment, both in it.
abbrev pub Range : Type 0
Range = ℕ × ℕ

abbrev pub range_of : Raw → Range
range_of s = (s.start, s.last)

abbrev pub range : Segment → Range
range s = range_of s.raw

-- The ranges are not empty, follow one another without a gap from `at` on, and end before `n`.
abbrev pub Tiles : ℕ → ℕ → List Range → Type 0
Tiles at n [] = at ≡ n
Tiles at n (r ∷ rs) = (r.0 ≡ at) × (at ≤ r.1) × (r.1 < n) × Tiles (suc r.1) n rs

slice-ne-nil {ℓ} :
    {A : Type ℓ} (start stop : ℕ) (bs : List A)
    → start < stop
    → stop ≤ length bs
    → (b : A) × (rest : List A) × (slice start stop bs ≡ b ∷ rest)
unfolding slice
slice-ne-nil start stop [] h k = absurd (omega arith)
slice-ne-nil start zero (b ∷ bs) h k = absurd (omega arith)
slice-ne-nil zero (suc stop) (b ∷ bs) h k = (b, slice zero stop bs, refl)
slice-ne-nil (suc start) (suc stop) (b ∷ bs) h k =
    slice-ne-nil start stop bs (omega arith) (omega arith)

-- The ranges of the raw segments, from a boundary on.
abbrev ranges : Points Hint → ℕ → List Range
ranges [] total = []
ranges ((start, h) ∷ ps) total = (start, stop_of ps total - 1) ∷ ranges ps total

stop_of-bounds :
    (ps : Points Hint) (low total : ℕ)
    → low ≤ total
    → Ascends low total ps
    → (low ≤ stop_of ps total) × (stop_of ps total ≤ total)
stop_of-bounds [] low total k h = (k, omega arith)
stop_of-bounds ((i, hint) ∷ ps) low total k h = (h.0, omega arith)

ranges-Tiles :
    (start : ℕ) (hint : Hint) (ps : Points Hint) (low n : ℕ)
    → Ascends low n ((start, hint) ∷ ps)
    → Tiles start n (ranges ((start, hint) ∷ ps) n)
ranges-Tiles start hint [] low n h = (refl, omega arith, omega arith, omega arith)
ranges-Tiles start hint ((i, h') ∷ ps) low n h = (
  refl,
  omega arith,
  omega arith,
  subst (λ k. Tiles k n (ranges ((i, h') ∷ ps) n)) (omega arith)
      (ranges-Tiles i h' ps (suc start) n h.2),
)

-- the whole list
points-Tiles :
    (ps : Points Hint) (n : ℕ) → Ascends 0 n ps → first_key ps ≡ some 0 → Tiles 0 n (ranges ps n)
points-Tiles [] n h e = cc
points-Tiles ((i, hint) ∷ ps) n h e =
    subst (λ k. Tiles k n (ranges ((i, hint) ∷ ps) n)) (ground arith) (ranges-Tiles i hint ps 0 n h)

module _ (pats : Patterns) (d : Document) where
  map-raw_segments :
      (k : ℕ) (ps : Points Hint) (low : ℕ)
      → Ascends low (length d.blocks) ps
      → map range_of (raw_segments pats d k ps) ≡ ranges ps (length d.blocks)
  unfolding raw_segments raw_segment
  map-raw_segments k [] low h = refl
  map-raw_segments k ((start, hint) ∷ ps) low h =
      let n = length d.blocks in
      let within = stop_of-bounds ps (suc start) n (omega arith) h.2 in
      let (b, rest, e) = slice-ne-nil start (stop_of ps n) d.blocks (omega arith) within.1 in
      rw e (rw (map-raw_segments (suc k) ps (suc start) h.2) refl)

module _ (pats : Patterns) where
  range_of-number_one : (st : Numbering) (s : Raw) → range_of (number_one pats st s).0 ≡ range_of s
  unfolding number_one
  range_of-number_one st s = ground arith

  map-assign_from :
      (st : Numbering) (ss : List Raw) → map range_of (assign_from pats st ss) ≡ map range_of ss
  unfolding assign_from
  map-assign_from st [] = refl
  map-assign_from st (s ∷ ss) =
      rw (range_of-number_one st s) (rw (map-assign_from (number_one pats st s).1 ss) refl)

  map-with_ids : (n : ℕ) (ss : List Raw) → map range (with_ids pats n ss) ≡ map range_of ss
  unfolding with_ids
  map-with_ids n [] = refl
  map-with_ids n (s ∷ ss) = rw (map-with_ids (suc n) ss) refl

  map-build_plan :
      (d : Document)
      → Ascends 0 (length d.blocks) (boundary_points d)
      → map range (build_plan pats d) ≡ ranges (boundary_points d) (length d.blocks)
  unfolding build_plan assign_numbers_and_parts
  map-build_plan d h =
      map-with_ids 1 _
      ∙ (map-assign_from _ (raw_segments pats d 1 (boundary_points d))
          ∙ map-raw_segments pats d 1 (boundary_points d) 0 h)

  -- The draft plan of a document with blocks divides it: the block ranges of its segments, in their
  -- order, are not empty, begin with the first block, follow one another without a gap or an
  -- overlap, and end with the last block, whether the boundaries are those of the outline of a PDF
  -- or of spine documents and headings.
  pub build_plan-Tiles :
      (d : Document)
      → 0 < length d.blocks
      → Tiles 0 (length d.blocks) (map range (build_plan pats d))
  build_plan-Tiles d pos =
      let found = boundary_points-BeginsAt0 d pos in
      rw (map-build_plan d found.0)
        (points-Tiles (boundary_points d) (length d.blocks) found.0 found.1)
