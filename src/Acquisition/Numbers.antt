-- ===== src/Acquisition/Numbers.antt =====
-- The global numbers of the chapters of an import: `_assign_global_numbers` and the numbers of
-- `_write_segments` in acquisition/adapters/outbound/importer/commit.py. Numbers and offsets are
-- exact, signed, and in ten-thousandths, which `round(…, 4)` leaves as they are.
pub mod Increase
use reading_wiki.Prelude.{
  ℕ, suc, ◌*◌, Bool, true, false, ◌||◌, Option, none, some, List, [], ◌∷◌, if◌then◌else◌, select,
}
use reading_wiki.Acquisition.Integers.{ℤ, pos, ◌+ℤ◌, leb_ℤ, eqb_ℤ}

-- What a commit reads of a segment of the stored plan, which may have been edited: the first of
-- `block_range`, `include` and `number`.
pub record Entry : Type 0 where
  pub start : ℤ
  pub include : Bool
  pub number : Option ℤ

abbrev pub included : List Entry → List Entry
included = select (λ e. e.include)

-- Insertion into a list that is sorted by the first block; an equal segment stays before.
unfoldable pub insert_by_start : Entry → List Entry → List Entry
insert_by_start s [] = s ∷ []
insert_by_start s (t ∷ ts) =
    if leb_ℤ t.start s.start then t ∷ insert_by_start s ts else s ∷ (t ∷ ts)

-- `included.sort(key=lambda s: s["block_range"][0])`
unfoldable pub sort_by_start : List Entry → List Entry → List Entry
unfolding insert_by_start
sort_by_start done [] = done
sort_by_start done (s ∷ ss) = sort_by_start (insert_by_start s done) ss

-- `_load_for_commit`: the included segments in order, or the refusal of an empty commit.
unfoldable pub load_for_commit : List Entry → Option (List Entry)
unfolding sort_by_start
load_for_commit plan = elim (sort_by_start [] (included plan)) [
  | [] ↦ none
  | s ∷ ss ↦ some (s ∷ ss)
]

-- The number of one segment, after the last that was given.
unfoldable pub global_number : ℤ → Option ℤ → Option ℤ → ℤ
unfolding ◌+ℤ◌
global_number offset none none = offset +ℤ pos 10
global_number offset (some last) none = last +ℤ pos 10
global_number offset none (some num) = num +ℤ offset
global_number offset (some last) (some num) =
    if leb_ℤ (num +ℤ offset) last then last +ℤ pos 10 else num +ℤ offset

unfoldable pub assign_global_numbers : ℤ → Option ℤ → List Entry → List ℤ
unfolding global_number
assign_global_numbers offset last [] = []
assign_global_numbers offset last (e ∷ es) =
    let g = global_number offset last e.number in g ∷ assign_global_numbers offset (some g) es

-- `sequential`: offset + 1, offset + 2, …
unfoldable pub sequential_numbers : ℤ → ℕ → List Entry → List ℤ
unfolding ◌+ℤ◌
sequential_numbers offset index [] = []
sequential_numbers offset index (s ∷ ss) =
    (offset +ℤ pos (index * 10000)) ∷ sequential_numbers offset (suc index) ss

abbrev pub contains_number : ℤ → List ℤ → Bool
contains_number n [] = false
contains_number n (m ∷ ms) = eqb_ℤ m n || contains_number n ms

abbrev pub clashes : List ℤ → List ℤ → Bool
clashes existing [] = false
clashes existing (n ∷ ns) = contains_number n existing || clashes existing ns

-- `_write_segments` up to the refusal of a collision: the numbers that the chapters get.
unfoldable pub global_numbers : Bool → ℤ → List ℤ → List Entry → Option (List ℤ)
unfolding assign_global_numbers sequential_numbers
global_numbers sequential offset existing ss =
    let numbers =
      if sequential then sequential_numbers offset 1 ss else assign_global_numbers offset none ss in
    if clashes existing numbers then none else some numbers

abbrev pub with_numbers : List Entry → Option (List ℤ) → Option (List Entry × List ℤ)
with_numbers ss none = none
with_numbers ss (some numbers) = some (ss, numbers)

-- `commit_job`: the segments that become chapters, and their numbers. The numbers of the other
-- sources of the novel are read in between.
unfoldable pub commit_numbers : Bool → ℤ → List ℤ → List Entry → Option (List Entry × List ℤ)
unfolding load_for_commit global_numbers
commit_numbers sequential offset existing plan = elim (load_for_commit plan) [
  | none ↦ none
  | some ss ↦ with_numbers ss (global_numbers sequential offset existing ss)
]
