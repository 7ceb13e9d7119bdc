-- ===== src/Acquisition/Refine/Kept.antt =====
-- What a refinement leaves alone.
use reading_wiki.Prelude.{
  ℕ, zero, suc, ◌+◌, ◌/◌, ◌<◌, ◌≡◌, refl, ◌∙◌, Bool, true, false, Option, none, some, List, [], ◌∷◌,
  ap, length, arith, first_match, put_first, count_where, sym, inl, inr, Bool-cases, Option-cases,
}
use mathlib.Core.List.{map}
use reading_wiki.Acquisition.Document.{Document}
use reading_wiki.Acquisition.Titles.{Patterns}
use reading_wiki.Acquisition.Segments.{Segment, build_plan}
use reading_wiki.Acquisition.Segments.Partition.{range, Tiles, build_plan-Tiles}
use reading_wiki.Acquisition.Refine.{
  Update, Reply, unavailable, not_an_object, segments, needs_refine, all_objects, is_readable,
  has_number, refined, put_refined, apply_to, apply_update, apply_updates, refine_batch,
  refine_batches, refine_plan,
}

-- What the host owns of a segment.
pub record Fixed : Type 0 where
  pub id : ℕ
  pub range : ℕ × ℕ
  pub word_count : ℕ
  pub confidence : ℕ

abbrev pub fixed : Segment → Fixed
fixed s = record {
  id = s.id;
  range = range s;
  word_count = s.raw.word_count;
  confidence = s.confidence;
}

abbrev range_of_fixed : Fixed → ℕ × ℕ
range_of_fixed x = x.range

map-map-fixed : (plan : List Segment) → map range_of_fixed (map fixed plan) ≡ map range plan
map-map-fixed [] = refl
map-map-fixed (s ∷ plan) = rw (map-map-fixed plan) refl

module _ {A : Type 0} (f : Segment → A) where
  map-put_first :
      (p : Segment → Bool) (s s' : Segment) (plan : List Segment)
      → first_match p plan ≡ some s
      → f s' ≡ f s
      → map f (put_first p s' plan) ≡ map f plan
  unfolding first_match put_first
  map-put_first p s s' [] found same = refl
  map-put_first p s s' (t ∷ plan) found same = elim (Bool-cases (p t)) [
    | inl e ↦ let first : t ≡ s = ground arith in rw e (rw (same ∙ sym (λ i. f (first i))) refl)
    | inr e ↦
        let later : first_match p plan ≡ some s = ground arith in
        rw e (rw (map-put_first p s s' plan later same) refl)
  ]

module _ (pats : Patterns) where
  fixed-refined :
      (u : Update) (s : Segment) → fixed (record s { raw = refined pats u s.raw }) ≡ fixed s
  unfolding refined
  fixed-refined u s = ground arith

  map-put_refined :
      (u : Update) (i : ℕ) (found : Option Segment) (plan : List Segment)
      → first_match (has_number i) plan ≡ found
      → map fixed (put_refined pats u i found plan) ≡ map fixed plan
  map-put_refined u i none plan e = refl
  map-put_refined u i (some s) plan e =
      map-put_first fixed (has_number i) s _ plan e (fixed-refined u s)

  map-apply_to :
      (u : Update) (id : Option ℕ) (plan : List Segment)
      → map fixed (apply_to pats u id plan) ≡ map fixed plan
  map-apply_to u none plan = refl
  map-apply_to u (some i) plan = map-put_refined u i (first_match (has_number i) plan) plan refl

  map-apply_update :
      (u : Update) (plan : List Segment) → map fixed (apply_update pats u plan) ≡ map fixed plan
  unfolding apply_update
  map-apply_update u plan = map-apply_to u u.id plan

  map-apply_updates :
      (us : List (Option Update)) (plan : List Segment) {plan' : List Segment}
      → apply_updates pats us plan ≡ some plan'
      → map fixed plan' ≡ map fixed plan
  unfolding apply_updates
  map-apply_updates [] plan {plan'} e = let same : plan ≡ plan' = cc in rw same refl
  map-apply_updates (none ∷ us) plan e = cc
  map-apply_updates (some u ∷ us) plan {plan'} e =
      map-apply_updates us (apply_update pats u plan) {plan' = plan'} e ∙ map-apply_update u plan

  map-refine_batch :
      (reply : Reply) (plan : List Segment) {plan' : List Segment}
      → refine_batch pats reply plan ≡ some plan'
      → map fixed plan' ≡ map fixed plan
  unfolding refine_batch
  map-refine_batch unavailable plan {plan'} e = let same : plan ≡ plan' = cc in rw same refl
  map-refine_batch not_an_object plan e = cc
  map-refine_batch (segments us) plan {plan'} e = map-apply_updates us plan {plan' = plan'} e

  map-refine_batches :
      (left k : ℕ) (reply : ℕ → Reply) (plan : List Segment) {plan' : List Segment}
      → refine_batches pats left k reply plan ≡ some plan'
      → map fixed plan' ≡ map fixed plan
  unfolding refine_batches
  map-refine_batches zero k reply plan {plan'} e = let same : plan ≡ plan' = cc in rw same refl
  map-refine_batches (suc left) k reply plan {plan'} e =
      elim (Option-cases (refine_batch pats (reply k) plan)) [
        | inl f ↦ ground arith
        | inr (next, f) ↦
            map-refine_batches left (suc k) reply next {plan' = plan'} (ground arith)
            ∙ map-refine_batch (reply k) plan {plan' = next} f
      ]

  pub map-refine_plan :
      (has_key : Bool) (reply : ℕ → Reply) (plan : List Segment) {plan' : List Segment}
      → refine_plan pats has_key reply plan ≡ some plan'
      → map fixed plan' ≡ map fixed plan
  unfolding refine_plan
  map-refine_plan false reply plan {plan'} e = let same : plan ≡ plan' = cc in rw same refl
  map-refine_plan true reply plan {plan'} e =
      map-refine_batches ((count_where needs_refine plan + 149) / 150) 0 reply plan {plan' = plan'}
        e

  apply_updates-some :
      (us : List (Option Update)) (plan : List Segment)
      → all_objects us ≡ true
      → (plan' : List Segment) × (apply_updates pats us plan ≡ some plan')
  unfolding apply_updates
  apply_updates-some [] plan h = (plan, refl)
  apply_updates-some (none ∷ us) plan h = absurd (ground arith)
  apply_updates-some (some u ∷ us) plan h =
      apply_updates-some us (apply_update pats u plan) (ground arith)

  refine_batch-some :
      (reply : Reply) (plan : List Segment)
      → is_readable reply ≡ true
      → (plan' : List Segment) × (refine_batch pats reply plan ≡ some plan')
  unfolding refine_batch
  refine_batch-some unavailable plan h = (plan, refl)
  refine_batch-some not_an_object plan h = absurd (ground arith)
  refine_batch-some (segments us) plan h = apply_updates-some us plan h

  refine_batches-some :
      (left k : ℕ) (reply : ℕ → Reply) (plan : List Segment)
      → ((n : ℕ) → is_readable (reply n) ≡ true)
      → (plan' : List Segment) × (refine_batches pats left k reply plan ≡ some plan')
  unfolding refine_batches
  refine_batches-some zero k reply plan h = (plan, refl)
  refine_batches-some (suc left) k reply plan h =
      let (next, e) = refine_batch-some (reply k) plan (h k) in
      let (plan', f) = refine_batches-some left (suc k) reply next h in
      (plan', ground (arith, e, f))

  refine_plan-some :
      (has_key : Bool) (reply : ℕ → Reply) (plan : List Segment)
      → ((n : ℕ) → is_readable (reply n) ≡ true)
      → (plan' : List Segment) × (refine_plan pats has_key reply plan ≡ some plan')
  unfolding refine_plan
  refine_plan-some false reply plan h = (plan, refl)
  refine_plan-some true reply plan h =
      refine_batches-some ((count_where needs_refine plan + 149) / 150) 0 reply plan h

  -- Where the language model fails or replies with objects, and with no key for it, the refinement
  -- of the draft plan of a document with blocks returns a plan. Its segments have the ids, ranges,
  -- word counts and confidences of the draft, and divide the document: the ranges are not empty,
  -- begin with the first block, follow one another without a gap or an overlap, and end with the
  -- last block.
  pub refine_plan-Tiles :
      (d : Document) (has_key : Bool) (reply : ℕ → Reply)
      → 0 < length d.blocks
      → ((n : ℕ) → is_readable (reply n) ≡ true)
      → (plan : List Segment) × (refine_plan pats has_key reply (build_plan pats d) ≡ some plan)
        × (map fixed plan ≡ map fixed (build_plan pats d))
        × Tiles 0 (length d.blocks) (map range plan)
  refine_plan-Tiles d has_key reply pos readable =
      let draft = build_plan pats d in
      let (plan, e) = refine_plan-some has_key reply draft readable in
      let kept = map-refine_plan has_key reply draft {plan' = plan} e in
      let same : map range plan ≡ map range draft =
        sym (map-map-fixed plan) ∙ (ap (map range_of_fixed) kept ∙ map-map-fixed draft) in
      (plan, e, kept, rw same (build_plan-Tiles pats d pos))
