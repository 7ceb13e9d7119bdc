-- ===== src/Acquisition/Tests.antt =====
-- A short book, from its blocks to the numbers of its chapters.
use reading_wiki.Prelude.{
  ℕ, ◌*◌, ◌≡◌, refl, String, true, false, Option, none, some, List, [], ◌∷◌, arith, contains, All,
  lower, select, count_where, first_match, put_first, strip,
}
use mathlib.Core.List.{map}
use reading_wiki.Acquisition.Document.{Block, Document, heading, paragraph}
use reading_wiki.Acquisition.Titles.{Patterns, chapter}
use reading_wiki.Acquisition.Segments.{Segment, build_plan}
use reading_wiki.Acquisition.Segments.Partition.{range, Tiles}
use reading_wiki.Acquisition.Segments.Numbered.{Settled, build_plan-Settled}
use reading_wiki.Acquisition.Refine.{Reply, segments, refine_plan}
use reading_wiki.Acquisition.Refine.Kept.{fixed, refine_plan-Tiles}
use reading_wiki.Acquisition.Numbers.{Entry, commit_numbers, included}
use reading_wiki.Acquisition.Integers.{ℤ, pos, negsuc}
use reading_wiki.Acquisition.Numbers.Increase.{InOrder, SameEntries, Fits, commit_numbers-Fits}

-- Titles of the test: one number, and words found anywhere.
abbrev words : Patterns
words = record {
  chapter_number = λ t. none;
  leading_number = λ t. none;
  says_chapter = contains "chapter";
  interlude = contains "interlude";
  prologue = contains "prologue";
  epilogue = contains "epilogue";
  part = λ t. false;
}

abbrev a_heading : String → ℕ → Block
a_heading t sp = record {
  kind = heading;
  text = t;
  level = some 1;
  spine_idx = some sp;
  page = none;
}

abbrev a_paragraph : ℕ → Block
a_paragraph sp = record {
  kind = paragraph;
  text = "Some prose.";
  level = none;
  spine_idx = some sp;
  page = none;
}

abbrev book : Document
book = record {
  blocks =
      a_heading "Copyright" 0
      ∷ (a_paragraph 0
          ∷ (a_heading "The Gate" 1
              ∷ (a_paragraph 1
                  ∷ (a_heading "Interlude: Rain" 1
                      ∷ (a_paragraph 1 ∷ (a_heading "The Road" 2 ∷ (a_paragraph 2 ∷ [])))))));
  is_pdf = false;
  language = "en";
  spine = [];
  toc = [];
}

-- The reply renames the first chapter.
abbrev reply : ℕ → Reply
reply k = segments (
    some (record {
      id = some 1;
      kind = some chapter;
      title = some "Foreword";
      number = some none;
      part_label = none;
      include = some true;
    })
    ∷ [])

abbrev refined_book : Option (List Segment)
refined_book = refine_plan words true reply (build_plan words book)

abbrev of_plan : Option (List Segment) → List Segment
of_plan none = []
of_plan (some plan) = plan

ranges_of_book : map range (build_plan words book) ≡ (0, 1) ∷ ((2, 3) ∷ ((4, 5) ∷ ((6, 7) ∷ [])))
unfolding build_plan contains lower
ranges_of_book = refl

numbers_of_book :
    map (λ s. s.raw.number) (build_plan words book)
    ≡ none ∷ (some 1000 ∷ (some 1500 ∷ (some 2000 ∷ [])))
unfolding build_plan contains lower
numbers_of_book = refl

-- The plan as the commit reads it: thousandths become ten-thousandths.
abbrev entry_of : Segment → Entry
entry_of s = record {
  start = pos s.raw.start;
  include = s.raw.include;
  number = elim s.raw.number [ none ↦ none | some n ↦ some (pos (n * 10)) ];
}

abbrev entry : ℕ → Option ℤ → Entry
entry start number = record { start = pos start; include = true; number = number }

abbrev numbers : Option (List Entry × List ℤ) → List ℤ
numbers none = []
numbers (some (es, ns)) = ns

-- The foreword has no number and comes just above the offset.
committed :
    numbers (commit_numbers false (pos 50000) [] (map entry_of (of_plan refined_book)))
    ≡ pos 50010 ∷ (pos 60000 ∷ (pos 65000 ∷ (pos 70000 ∷ [])))
unfolding commit_numbers refine_plan build_plan contains lower select count_where first_match
    put_first strip
committed = refl

-- An edited plan: a number below 0 is kept as the first, and one that does not ascend is replaced.
edited :
    numbers (
      commit_numbers false (pos 20000) [] (
        entry 4 (some (pos 10000))
        ∷ (entry 0 (some (negsuc 29999)) ∷ (entry 2 none ∷ (entry 6 (some (pos 5000)) ∷ [])))))
    ≡ negsuc 9999 ∷ (negsuc 9989 ∷ (pos 30000 ∷ (pos 30010 ∷ [])))
unfolding commit_numbers select
edited = refl

refine_plan-Tiles_example :
    (plan : List Segment) × (refine_plan words true reply (build_plan words book) ≡ some plan)
    × (map fixed plan ≡ map fixed (build_plan words book))
    × Tiles 0 8 (map range plan)
refine_plan-Tiles_example = refine_plan-Tiles words book true reply (omega arith) (λ n. refl)

build_plan-Settled_example : All Settled (build_plan words book)
build_plan-Settled_example = build_plan-Settled words book

abbrev of_commit : Option (List Entry × List ℤ) → List Entry
of_commit none = []
of_commit (some (es, ns)) = es

abbrev commit_of_book : Option (List Entry × List ℤ)
commit_of_book = commit_numbers false (pos 50000) [] (map entry_of (of_plan refined_book))

commit_of_book_lem :
    commit_numbers false (pos 50000) [] (map entry_of (of_plan refined_book))
    ≡ some (of_commit commit_of_book, numbers commit_of_book)
unfolding commit_numbers refine_plan build_plan contains lower select count_where first_match
    put_first strip
commit_of_book_lem = refl

commit_numbers-Fits_example :
    InOrder (of_commit commit_of_book)
    × SameEntries (of_commit commit_of_book) (included (map entry_of (of_plan refined_book)))
    × Fits (pos 50000) [] (of_commit commit_of_book) (numbers commit_of_book)
commit_numbers-Fits_example =
    commit_numbers-Fits false (pos 50000) [] (map entry_of (of_plan refined_book))
      {ss = of_commit commit_of_book} {numbers = numbers commit_of_book} commit_of_book_lem
