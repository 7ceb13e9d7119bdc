-- ===== src/Acquisition/Segments/Numbered.antt =====
-- Which segments of a draft plan have a number, and which are refined.
use reading_wiki.Prelude.{
  ℕ, suc, ◌≡◌, Bool, false, not, ◌&&◌, ◌||◌, List, [], ◌∷◌, arith, is_some, All,
}
use reading_wiki.Acquisition.Document.{Document}
use reading_wiki.Acquisition.Boundaries.{boundary_points}
use reading_wiki.Acquisition.Titles.{Patterns, is_chapter, is_interlude}
use reading_wiki.Acquisition.Segments.{
  Raw, Segment, Numbering, number_one, assign_from, assign_numbers_and_parts, raw_segments,
  with_ids, build_plan,
}
use reading_wiki.Acquisition.Refine.{needs_refine}

abbrev pub is_story : Raw → Bool
is_story s = is_chapter s.kind || is_interlude s.kind

abbrev pub HasNumber : Raw → Type 0
HasNumber s = (is_story s && not (is_some s.number)) ≡ false

-- It has a number if it is a chapter or an interlude, and is refined exactly if it is no chapter.
abbrev pub Settled : Segment → Type 0
Settled s = HasNumber s.raw × (needs_refine s ≡ not (is_chapter s.raw.kind))

module _ (pats : Patterns) where
  number_one-HasNumber : (st : Numbering) (s : Raw) → HasNumber (number_one pats st s).0
  unfolding number_one
  number_one-HasNumber st s = ground arith

  assign_from-HasNumber : (st : Numbering) (ss : List Raw) → All HasNumber (assign_from pats st ss)
  unfolding assign_from
  assign_from-HasNumber st [] = tt
  assign_from-HasNumber st (s ∷ ss) =
      (number_one-HasNumber st s, assign_from-HasNumber (number_one pats st s).1 ss)

  with_ids-Settled : (n : ℕ) (ss : List Raw) → All HasNumber ss → All Settled (with_ids pats n ss)
  unfolding with_ids needs_refine
  with_ids-Settled n [] h = tt
  with_ids-Settled n (s ∷ ss) h = (ground arith, with_ids-Settled (suc n) ss h.1)

  -- In a draft plan every chapter and every interlude has a number, and exactly the segments that
  -- are no chapters are sent to be refined: a chapter is not, also where its title had no number and
  -- it was given the next one.
  pub build_plan-Settled : (d : Document) → All Settled (build_plan pats d)
  unfolding build_plan assign_numbers_and_parts
  build_plan-Settled d =
      with_ids-Settled 1 _ (assign_from-HasNumber _ (raw_segments pats d 1 (boundary_points d)))
