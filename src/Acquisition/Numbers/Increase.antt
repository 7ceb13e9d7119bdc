-- ===== src/Acquisition/Numbers/Increase.antt =====
-- The numbers of an import ascend in the order of the blocks and are free.
use reading_wiki.Prelude.{
  ℕ, suc, ◌+◌, ◌*◌, ◌≡◌, refl, Bool, true, false, ◌&&◌, ◌||◌, Option, none, some, List, [], ◌∷◌,
  arith, length, All, Bool-cases, Option-cases, inl, inr, ◌∙◌, subst, count_where, All-weaken,
  if◌then◌else◌,
}
use native.Mathlib.Nat.{zero-add}
use reading_wiki.Acquisition.Integers.{
  ℤ, pos, negsuc, ◌+ℤ◌, ◌<ℤ◌, ◌≤ℤ◌, leb_ℤ, +ℤ_parts, add-mono, lt-add,
}
use reading_wiki.Acquisition.Numbers.{
  Entry, global_number, assign_global_numbers, sequential_numbers, contains_number, clashes,
  global_numbers, included, insert_by_start, sort_by_start, load_for_commit, commit_numbers,
}

abbrev pub IsAbove : Option ℤ → ℤ → Type 0
IsAbove none n = Unit
IsAbove (some last) n = last <ℤ n

-- Each number is above the one before it, the first above `last`.
abbrev pub Increasing : Option ℤ → List ℤ → Type 0
Increasing last [] = Unit
Increasing last (n ∷ ns) = IsAbove last n × Increasing (some n) ns

global_number-IsAbove :
    (offset : ℤ) (last number : Option ℤ) → IsAbove last (global_number offset last number)
unfolding global_number
global_number-IsAbove offset none number = tt
global_number-IsAbove offset (some l) none = lt-add l 10 (omega arith)
global_number-IsAbove offset (some l) (some n) = ground (arith, lt-add l 10)

assign-Increasing :
    (offset : ℤ) (last : Option ℤ) (es : List Entry)
    → Increasing last (assign_global_numbers offset last es)
unfolding assign_global_numbers
assign-Increasing offset last [] = tt
assign-Increasing offset last (e ∷ es) =
    (global_number-IsAbove offset last e.number, assign-Increasing offset (some _) es)

sequential-Increasing :
    (offset : ℤ) (index : ℕ) (last : Option ℤ) (es : List Entry)
    → IsAbove last (offset +ℤ pos (index * 10000))
    → Increasing last (sequential_numbers offset index es)
unfolding sequential_numbers
sequential-Increasing offset index last [] h = tt
sequential-Increasing offset index last (e ∷ es) h = (
  h,
  sequential-Increasing offset (suc index) (some _) es
      (add-mono offset (index * 10000) (suc index * 10000) (omega arith)),
)

length-assign :
    (offset : ℤ) (last : Option ℤ) (es : List Entry)
    → length (assign_global_numbers offset last es) ≡ length es
unfolding assign_global_numbers
length-assign offset last [] = refl
length-assign offset last (e ∷ es) = omega (arith, length-assign offset (some _) es)

length-sequential :
    (offset : ℤ) (index : ℕ) (es : List Entry)
    → length (sequential_numbers offset index es) ≡ length es
unfolding sequential_numbers
length-sequential offset index [] = refl
length-sequential offset index (e ∷ es) = omega (arith, length-sequential offset (suc index) es)

-- ── the offset ──

abbrev pub is_negative : Option ℤ → Bool
is_negative none = false
is_negative (some (pos n)) = false
is_negative (some (negsuc n)) = true

abbrev pub any_negative : List Entry → Bool
any_negative [] = false
any_negative (e ∷ es) = is_negative e.number || any_negative es

abbrev pub all_from : ℤ → List ℤ → Bool
all_from offset [] = true
all_from offset (n ∷ ns) = leb_ℤ offset n && all_from offset ns

abbrev last_from : ℤ → Option ℤ → Bool
last_from offset none = true
last_from offset (some last) = leb_ℤ offset last

global_number-from :
    (offset : ℤ) (last number : Option ℤ)
    → last_from offset last ≡ true
    → is_negative number ≡ false
    → leb_ℤ offset (global_number offset last number) ≡ true
unfolding global_number
global_number-from offset none none h k = ground (arith, +ℤ_parts offset (pos 10))
global_number-from offset (some l) none h k = ground (arith, h, +ℤ_parts l (pos 10))
global_number-from offset none (some (pos n)) h k = ground (arith, +ℤ_parts (pos n) offset)
global_number-from offset none (some (negsuc n)) h k = ground arith
global_number-from offset (some l) (some (pos n)) h k =
    ground (arith, h, +ℤ_parts (pos n) offset, +ℤ_parts l (pos 10))
global_number-from offset (some l) (some (negsuc n)) h k = ground arith

assign-from :
    (offset : ℤ) (last : Option ℤ) (es : List Entry)
    → last_from offset last ≡ true
    → (any_negative es || all_from offset (assign_global_numbers offset last es)) ≡ true
unfolding assign_global_numbers
assign-from offset last [] h = refl
assign-from offset last (e ∷ es) h = elim (Bool-cases (is_negative e.number)) [
  | inl neg ↦ ground (arith, neg)
  | inr k ↦
      let g = global_number-from offset last e.number h k in
      ground (arith, k, g, assign-from offset (some (global_number offset last e.number)) es g)
]

sequential-from :
    (offset : ℤ) (index : ℕ) (es : List Entry)
    → all_from offset (sequential_numbers offset index es) ≡ true
unfolding sequential_numbers
sequential-from offset index [] = refl
sequential-from offset index (e ∷ es) =
    ground (arith, +ℤ_parts offset (pos (index * 10000)), sequential-from offset (suc index) es)

-- ── the numbers that are taken ──

clashes-All :
    (existing ns : List ℤ)
    → clashes existing ns ≡ false
    → All (λ n. contains_number n existing ≡ false) ns
clashes-All existing [] h = tt
clashes-All existing (n ∷ ns) h = (ground arith, clashes-All existing ns (ground arith))

-- One number for each segment, ascending, from the offset on unless a segment has a number below 0,
-- and none of them taken.
abbrev pub Fits : ℤ → List ℤ → List Entry → List ℤ → Type 0
Fits offset existing es numbers =
    (length numbers ≡ length es)
    × Increasing none numbers
    × ((any_negative es || all_from offset numbers) ≡ true)
    × All (λ n. contains_number n existing ≡ false) numbers

numbers-Fit :
    (offset : ℤ) (existing : List ℤ) (es : List Entry) (ns : List ℤ) {numbers : List ℤ}
    → length ns ≡ length es
    → Increasing none ns
    → (any_negative es || all_from offset ns) ≡ true
    → (if clashes existing ns then none else some ns) ≡ some numbers
    → Fits offset existing es numbers
numbers-Fit offset existing es ns {numbers} len up from e =
    elim (Bool-cases (clashes existing ns)) [
      | inl f ↦ ground arith
      | inr f ↦
          let same : ns ≡ numbers = ground arith in
          subst (Fits offset existing es) same (len, up, from, clashes-All existing ns f)
    ]

global_numbers-Fits :
    (sequential : Bool) (offset : ℤ) (existing : List ℤ) (es : List Entry) {numbers : List ℤ}
    → global_numbers sequential offset existing es ≡ some numbers
    → Fits offset existing es numbers
unfolding global_numbers
global_numbers-Fits true offset existing es {numbers} e =
    numbers-Fit offset existing es (sequential_numbers offset 1 es) (length-sequential offset 1 es)
      (sequential-Increasing offset 1 none es tt) (ground (arith, sequential-from offset 1 es)) e
global_numbers-Fits false offset existing es {numbers} e =
    numbers-Fit offset existing es (assign_global_numbers offset none es)
      (length-assign offset none es) (assign-Increasing offset none es)
      (assign-from offset none es refl) e

-- ── the order of the segments ──

abbrev pub InOrder : List Entry → Type 0
InOrder [] = Unit
InOrder (s ∷ ss) = All (λ t. s.start ≤ℤ t.start) ss × InOrder ss

insert-All :
    (low : ℤ) (s : Entry) (ss : List Entry)
    → low ≤ℤ s.start
    → All (λ t. low ≤ℤ t.start) ss
    → All (λ t. low ≤ℤ t.start) (insert_by_start s ss)
unfolding insert_by_start
insert-All low s [] h all = (h, tt)
insert-All low s (t ∷ ts) h all = ground (arith, insert-All low s ts h all.1)

insert-InOrder : (s : Entry) (ss : List Entry) → InOrder ss → InOrder (insert_by_start s ss)
unfolding insert_by_start
insert-InOrder s [] h = (tt, tt)
insert-InOrder s (t ∷ ts) h = elim (Bool-cases (leb_ℤ t.start s.start)) [
  | inl e ↦ rw e (insert-All t.start s ts (ground arith) h.0, insert-InOrder s ts h.1)
  | inr e ↦
      let before : s.start ≤ℤ t.start = ground arith in
      rw e (
        (
          before,
          All-weaken (λ u. t.start ≤ℤ u.start) (λ u. s.start ≤ℤ u.start) ts (λ u k. omega arith)
              h.0,
        ),
        h,
      )
]

sort-InOrder : (done ss : List Entry) → InOrder done → InOrder (sort_by_start done ss)
unfolding sort_by_start
sort-InOrder done [] h = h
sort-InOrder done (s ∷ ss) h = sort-InOrder (insert_by_start s done) ss (insert-InOrder s done h)

count-insert :
    (p : Entry → Bool) (s : Entry) (ss : List Entry)
    → count_where p (insert_by_start s ss) ≡ count_where p (s ∷ ss)
unfolding insert_by_start count_where
count-insert p s [] = refl
count-insert p s (t ∷ ts) = ground (arith, count-insert p s ts)

count-sort :
    (p : Entry → Bool) (done ss : List Entry)
    → count_where p (sort_by_start done ss) ≡ count_where p done + count_where p ss
unfolding sort_by_start count_where
count-sort p done [] = omega arith
count-sort p done (s ∷ ss) =
    ground (arith, count-sort p (insert_by_start s done) ss, count-insert p s done)

abbrev pub SameEntries : List Entry → List Entry → Type 0
SameEntries ss ts = (p : Entry → Bool) → count_where p ss ≡ count_where p ts

load_for_commit-InOrder :
    (plan : List Entry) {ss : List Entry}
    → load_for_commit plan ≡ some ss
    → InOrder ss × SameEntries ss (included plan)
unfolding load_for_commit count_where
load_for_commit-InOrder plan {ss} e =
    let same : sort_by_start [] (included plan) ≡ ss = ground arith in
    subst (λ ts. InOrder ts × SameEntries ts (included plan)) same
      (sort-InOrder [] (included plan) tt, λ p. count-sort p [] (included plan) ∙ zero-add _)

-- In exact arithmetic on numbers of at most four decimals, where a plan gets the numbers of its
-- chapters: the segments that become chapters are the included ones of the plan, as often, in the
-- order of their first blocks; there is one number for each; each number is above the one before
-- it, whatever numbers the segments have, and also where they are counted out one by one; where no
-- segment has a number below 0, none of the numbers is below the offset; and none is a number that
-- another source of the novel has.
pub commit_numbers-Fits :
    (sequential : Bool) (offset : ℤ) (existing : List ℤ) (plan : List Entry) {ss : List Entry}
    {numbers : List ℤ}
    → commit_numbers sequential offset existing plan ≡ some (ss, numbers)
    → InOrder ss × SameEntries ss (included plan) × Fits offset existing ss numbers
unfolding commit_numbers
commit_numbers-Fits sequential offset existing plan {ss} {numbers} e =
    elim (Option-cases (load_for_commit plan)) [
      | inl f ↦ ground arith
      | inr (ts, f) ↦ elim (Option-cases (global_numbers sequential offset existing ts)) [
        | inl g ↦ ground arith
        | inr (ns, g) ↦
            let same : ts ≡ ss = ground arith in
            let same' : ns ≡ numbers = ground arith in
            let order = load_for_commit-InOrder plan {ss = ts} f in
            let fits = global_numbers-Fits sequential offset existing ts {numbers = ns} g in
            subst
              (λ xs. InOrder xs × SameEntries xs (included plan) × Fits offset existing xs numbers)
              same (order.0, order.1, subst (Fits offset existing ts) same' fits)
      ]
    ]
