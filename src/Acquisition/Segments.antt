-- ===== src/Acquisition/Segments.antt =====
-- `build_plan` of acquisition/adapters/outbound/importer/segment.py. Numbers are in thousandths and
-- confidences in hundredths.
pub mod Partition
pub mod Numbered
use reading_wiki.Prelude.{
  ℕ, suc, ◌+◌, ◌-◌, ◌*◌, ◌/◌, String, Bool, true, false, not, ◌&&◌, Option, none, some, List, [],
  ◌∷◌, ltb, length, is_some, get_or, if◌then◌else◌, strip, lower, truthy,
}
use reading_wiki.Acquisition.Document.{Block, Document}
use reading_wiki.Acquisition.Titles.{
  Patterns, SegmentKind, frontmatter, is_chapter, is_interlude, is_frontmatter, parse_number,
  classify,
}
use reading_wiki.Acquisition.Passages.{slice, words_of, first_line, segment_title}
use reading_wiki.Acquisition.Boundaries.{Points, Hint, boundary_points}

-- An entry of `raw_segments`; `block_range` is `[start, last]`.
pub record Raw : Type 0 where
  pub title : String
  pub number : Option ℕ
  pub kind : SegmentKind
  pub include : Bool
  pub start : ℕ
  pub last : ℕ
  pub word_count : ℕ
  pub first_line : String
  pub part_label : Option String

-- `id` is the number that follows the `s`.
pub record Segment : Type 0 where
  pub id : ℕ
  pub raw : Raw
  pub confidence : ℕ

-- ── the segments ──

abbrev pub stop_of : Points Hint → ℕ → ℕ
stop_of [] total = total
stop_of ((i, h) ∷ ps) total = i

module _ (pats : Patterns) (d : Document) where
  unfoldable pub raw_segment : ℕ → ℕ → ℕ → Hint → List Block → Raw
  unfolding classify parse_number segment_title words_of first_line
  raw_segment n start stop hint blocks =
      let title = segment_title blocks d.spine n hint in
      let number = parse_number pats title in
      record {
        title = title;
        number = number;
        kind = (classify pats title number).0;
        include = (classify pats title number).1;
        start = start;
        last = stop - 1;
        word_count = words_of d.language blocks;
        first_line = first_line blocks;
        part_label = none;
      }

  abbrev pub add_segment : ℕ → ℕ → ℕ → Hint → List Block → List Raw → List Raw
  add_segment n start stop hint [] rest = rest
  add_segment n start stop hint (b ∷ bs) rest = raw_segment n start stop hint (b ∷ bs) ∷ rest

  -- The first loop of `build_plan`, from the `n`-th boundary on.
  unfoldable pub raw_segments : ℕ → Points Hint → List Raw
  unfolding slice raw_segment
  raw_segments n [] = []
  raw_segments n ((start, hint) ∷ ps) =
      let stop = stop_of ps (length d.blocks) in
      add_segment n start stop hint (slice start stop d.blocks) (raw_segments (suc n) ps)

-- ── numbers and parts ──

pub record Numbering : Type 0 where
  pub current_part : Option String
  pub next_num : ℕ
  pub last_chapter_num : ℕ

abbrev pub under_part : Option String → SegmentKind → Option String → Option String
under_part part kind label =
    if truthy (get_or part "") && not (is_frontmatter kind) then part else label

module _ (pats : Patterns) where
  abbrev pub is_divider : Raw → Bool
  is_divider s = pats.part s.title && ltb s.word_count 60

  abbrev pub chapter_number : Numbering → Raw → ℕ
  chapter_number st s = elim s.number [
    | some n ↦ n
    | none ↦ if pats.prologue (lower s.title) then 0 else st.next_num * 1000
  ]

  -- One round of `_assign_numbers_and_parts`: the segment, and the variables of the loop.
  unfoldable pub number_one : Numbering → Raw → Raw × Numbering
  number_one st s =
      let label = under_part st.current_part s.kind s.part_label in
      let n = chapter_number st s in
      if is_divider s
      then (
        record s { kind = frontmatter; include = false; number = none },
        record st { current_part = some (strip s.title) },
      )
      else if is_chapter s.kind
      then (
        record s { part_label = label; number = some n },
        record st { last_chapter_num = n; next_num = n / 1000 + 1 },
      )
      else if is_interlude s.kind
      then (
        record s {
          part_label = label;
          number = some (get_or s.number (st.last_chapter_num + 500));
        },
        st,
      )
      else (record s { part_label = label }, st)

  unfoldable pub assign_from : Numbering → List Raw → List Raw
  unfolding number_one
  assign_from st [] = []
  assign_from st (s ∷ ss) = (number_one st s).0 ∷ assign_from (number_one st s).1 ss

  unfoldable pub assign_numbers_and_parts : List Raw → List Raw
  unfolding assign_from
  assign_numbers_and_parts ss =
      assign_from (record { current_part = none; next_num = 1; last_chapter_num = 0 }) ss

  abbrev pub confidence_of : Raw → ℕ
  confidence_of s = if is_chapter s.kind then (if is_some s.number then 95 else 85) else 90

  unfoldable pub with_ids : ℕ → List Raw → List Segment
  with_ids n [] = []
  with_ids n (s ∷ ss) =
      record { id = n; raw = s; confidence = confidence_of s } ∷ with_ids (suc n) ss

  unfoldable pub build_plan : Document → List Segment
  unfolding with_ids assign_numbers_and_parts raw_segments boundary_points
  build_plan d = with_ids 1 (assign_numbers_and_parts (raw_segments pats d 1 (boundary_points d)))
