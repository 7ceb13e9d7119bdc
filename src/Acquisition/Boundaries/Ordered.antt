-- ===== src/Acquisition/Boundaries/Ordered.antt =====
-- The boundaries of a document ascend, lie inside it, and begin with its first block.
use reading_wiki.Prelude.{
  ℕ, suc, ◌+◌, ◌-◌, ◌≤◌, ◌<◌, ◌≡◌, refl, String, Bool, true, false, not, ◌&&◌, Option, none, some,
  List, [], ◌∷◌, length, arith, inl, inr, Bool-cases, Option-cases, strip, All, subst,
}
use reading_wiki.Acquisition.Document.{Block, Document}
use reading_wiki.Acquisition.Boundaries.{
  Points, Hint, set_default, scan, boundaries, first_at_page, idx_for_page, toc_points, outline,
  pdf_toc_boundaries, boundary_points, add_if, changes_spine, breaks, dominant_heading_level,
}

-- The keys ascend from `low` on, below `n`.
abbrev pub Ascends : {A : Type 0} → ℕ → ℕ → Points A → Type 0
Ascends low n [] = Unit
Ascends low n ((i, v) ∷ ps) = (low ≤ i) × (i < n) × Ascends (suc i) n ps

abbrev pub first_key : {A : Type 0} → Points A → Option ℕ
first_key [] = none
first_key ((i, v) ∷ ps) = some i

abbrev pub BeginsAt0 : ℕ → Points Hint → Type 0
BeginsAt0 n ps = Ascends 0 n ps × (first_key ps ≡ some 0)

set_default-Ascends :
    {A : Type 0} (i : ℕ) (v : A) (low n : ℕ) (ps : Points A)
    → low ≤ i
    → i < n
    → Ascends low n ps
    → Ascends low n (set_default i v ps)
unfolding set_default
set_default-Ascends i v low n [] h k all = (h, k, tt)
set_default-Ascends i v low n ((j, w) ∷ ps) h k all =
    ground (arith, set_default-Ascends i v (suc j) n ps)

first_key-set_default :
    {A : Type 0} (i : ℕ) (v : A) (ps : Points A)
    → first_key ps ≡ some 0
    → first_key (set_default i v ps) ≡ some 0
unfolding set_default
first_key-set_default i v [] h = cc
first_key-set_default i v ((j, w) ∷ ps) h = ground arith

first_key-set_default_zero :
    {A : Type 0} (v : A) (ps : Points A) → first_key (set_default 0 v ps) ≡ some 0
unfolding set_default
first_key-set_default_zero v [] = refl
first_key-set_default_zero v ((j, w) ∷ ps) = ground arith

add_if-BeginsAt0 :
    (c : Bool) (i n : ℕ) (ps : Points Hint) → i < n → BeginsAt0 n ps → BeginsAt0 n (add_if c i ps)
add_if-BeginsAt0 true i n ps k h =
    (set_default-Ascends i none 0 n ps (omega arith) k h.0, first_key-set_default i none ps h.1)
add_if-BeginsAt0 false i n ps k h = h

scan-BeginsAt0 :
    (dominant : Option ℕ) (i : ℕ) (prev : Option ℕ) (seen : Bool) (bounds : Points Hint)
    (bs : List Block) (n : ℕ)
    → i + length bs ≤ n
    → BeginsAt0 n bounds
    → BeginsAt0 n (scan dominant i prev seen bounds bs)
unfolding scan
scan-BeginsAt0 dominant i prev seen bounds [] n k h = h
scan-BeginsAt0 dominant i prev seen bounds (b ∷ bs) n k h =
    let changed = changes_spine i prev b in
    let heads = breaks dominant (seen && not changed) b in
    scan-BeginsAt0 dominant (suc i) b.spine_idx _ (add_if heads i (add_if changed i bounds)) bs n
      (omega arith)
      (add_if-BeginsAt0 heads i n (add_if changed i bounds) (omega arith)
        (add_if-BeginsAt0 changed i n bounds (omega arith) h))

boundaries-BeginsAt0 :
    (b : Block) (bs : List Block) → BeginsAt0 (length (b ∷ bs)) (boundaries (b ∷ bs))
unfolding boundaries
boundaries-BeginsAt0 b bs =
    scan-BeginsAt0 (dominant_heading_level (b ∷ bs)) 0 b.spine_idx false ((0, none) ∷ []) (b ∷ bs)
      (length (b ∷ bs)) (omega arith) ((omega arith, omega arith, tt), refl)

-- ── the outline of a PDF ──

abbrev Below : ℕ → Points ℕ → Type 0
Below n = All (λ p. p.1 < n)

set_default-Below : (i v n : ℕ) (ps : Points ℕ) → v < n → Below n ps → Below n (set_default i v ps)
unfolding set_default
set_default-Below i v n [] k all = (k, tt)
set_default-Below i v n ((j, w) ∷ ps) k all = ground (arith, set_default-Below i v n ps)

set_page-Below :
    (page : Option ℕ) (i n : ℕ) (pages : Points ℕ)
    → i < n
    → Below n pages
    → Below n (elim page [ none ↦ pages | some p ↦ set_default p i pages ])
set_page-Below none i n pages k all = all
set_page-Below (some p) i n pages k all = set_default-Below p i n pages k all

first_at_page-Below :
    (i : ℕ) (pages : Points ℕ) (bs : List Block) (n : ℕ)
    → i + length bs ≤ n
    → Below n pages
    → Below n (first_at_page i pages bs)
unfolding first_at_page
first_at_page-Below i pages [] n k all = all
first_at_page-Below i pages (b ∷ bs) n k all =
    first_at_page-Below (suc i) _ bs n (omega arith)
      (set_page-Below b.page i n pages (omega arith) all)

idx_for_page-lt :
    (page0 : ℕ) (ps : Points ℕ) (last n : ℕ)
    → last < n
    → Below n ps
    → idx_for_page page0 ps last < n
unfolding idx_for_page
idx_for_page-lt page0 [] last n k all = k
idx_for_page-lt page0 ((p, i) ∷ ps) last n k all = ground (arith, idx_for_page-lt page0 ps i n)

toc_points-Ascends :
    (pages : Points ℕ) (toc : List (Option (String × ℕ))) (points : Points Hint) (n : ℕ)
    → 0 < n
    → Below n pages
    → Ascends 0 n points
    → Ascends 0 n (toc_points pages toc points)
unfolding toc_points
toc_points-Ascends pages [] points n pos below h = h
toc_points-Ascends pages (none ∷ toc) points n pos below h =
    toc_points-Ascends pages toc points n pos below h
toc_points-Ascends pages (some (title, page) ∷ toc) points n pos below h =
    toc_points-Ascends pages toc _ n pos below (
      set_default-Ascends (idx_for_page (page - 1) pages 0) (some (strip title)) 0 n points
        (omega arith) (idx_for_page-lt (page - 1) pages 0 n pos below) h)

outline-BeginsAt0 :
    (toc : List (Option (String × ℕ))) (pages : Points ℕ) (n : ℕ) {points : Points Hint}
    → 0 < n
    → Below n pages
    → outline toc pages ≡ some points
    → BeginsAt0 n points
outline-BeginsAt0 toc [] n pos below e = cc
outline-BeginsAt0 toc (p ∷ ps) n {points} pos below e =
    let found = toc_points (p ∷ ps) toc [] in
    let inside = toc_points-Ascends (p ∷ ps) toc [] n pos below tt in
    let same : set_default 0 (some "") found ≡ points = cc in
    subst (BeginsAt0 n) same (
      set_default-Ascends 0 (some "") 0 n found (omega arith) pos inside,
      first_key-set_default_zero (some "") found,
    )

pdf-BeginsAt0 :
    (d : Document) {points : Points Hint}
    → 0 < length d.blocks
    → pdf_toc_boundaries d ≡ some points
    → BeginsAt0 (length d.blocks) points
unfolding pdf_toc_boundaries
pdf-BeginsAt0 d {points} pos e =
    outline-BeginsAt0 d.toc (first_at_page 0 [] d.blocks) (length d.blocks) {points = points} pos
      (first_at_page-Below 0 [] d.blocks (length d.blocks) (omega arith) tt) (ground arith)

boundaries-nonempty :
    (blocks : List Block) → 0 < length blocks → BeginsAt0 (length blocks) (boundaries blocks)
boundaries-nonempty [] pos = absurd (omega arith)
boundaries-nonempty (b ∷ bs) pos = boundaries-BeginsAt0 b bs

pub boundary_points-BeginsAt0 :
    (d : Document) → 0 < length d.blocks → BeginsAt0 (length d.blocks) (boundary_points d)
unfolding boundary_points
boundary_points-BeginsAt0 d pos = elim (Bool-cases d.is_pdf) [
  | inr e ↦ rw e (boundaries-nonempty d.blocks pos)
  | inl e ↦ elim (Option-cases (pdf_toc_boundaries d)) [
    | inl f ↦ rw (e, f) (boundaries-nonempty d.blocks pos)
    | inr (points, f) ↦ rw (e, f) (pdf-BeginsAt0 d pos f)
  ]
]
