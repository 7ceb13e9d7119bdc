-- ===== src/Acquisition/Refine.antt =====
-- `refine_plan` of acquisition/adapters/outbound/importer/segment.py. What the language model
-- replies is a parameter. An exception that leaves the function is none.
pub mod Kept
use reading_wiki.Prelude.{
  ℕ, zero, suc, ◌+◌, ◌/◌, ◌==◌, String, Bool, true, false, not, ◌&&◌, ◌||◌, Option, none, some,
  List, [], ◌∷◌, leb, is_some, get_or, if◌then◌else◌, strip, lower, truthy, text_append,
  first_match, put_first, count_where,
}
use reading_wiki.Acquisition.Titles.{Patterns, SegmentKind, is_chapter, interlude, chapter}
use reading_wiki.Acquisition.Segments.{Segment, Raw}

-- An object of the reply, at the fields that fit: `id` names a segment, `kind` is one of the four
-- words, and `number` is absent, no number (some none) or a number.
pub record Update : Type 0 where
  pub id : Option ℕ
  pub kind : Option SegmentKind
  pub title : Option String
  pub number : Option (Option ℕ)
  pub part_label : Option String
  pub include : Option Bool

-- A call that raises or whose text is no JSON, JSON that is no object, and the list of an object,
-- in which an entry that raises, as one that is no object does, is none.
pub data Reply : Type 0 where
  unavailable not_an_object : Reply
  segments : List (Option Update) → Reply

-- A reply that the code can read: every entry of its list is an object.
abbrev pub all_objects : List (Option Update) → Bool
all_objects [] = true
all_objects (u ∷ us) = is_some u && all_objects us

abbrev pub is_readable : Reply → Bool
is_readable unavailable = true
is_readable not_an_object = false
is_readable (segments us) = all_objects us

unfoldable pub needs_refine : Segment → Bool
needs_refine s = not (is_chapter s.raw.kind && (is_some s.raw.number && leb 95 s.confidence))

abbrev pub has_number : ℕ → Segment → Bool
has_number i s = s.id == i

abbrev pub new_title : Option String → String → String
new_title none old = old
new_title (some t) old = if truthy (strip t) then strip t else old

module _ (pats : Patterns) where
  -- What the titles say wins over the reply.
  unfoldable pub host_owned : Option ℕ → String → Raw → Raw
  host_owned number narrative s =
      if pats.epilogue narrative || pats.interlude narrative
      then record s { kind = interlude; include = true; number = number }
      else if pats.prologue narrative
      then record s { kind = chapter; include = true; number = number }
      else s

  abbrev pub with_reply : Update → Raw → Raw
  with_reply u s = record s {
    kind = get_or u.kind s.kind;
    title = new_title u.title s.title;
    number = get_or u.number s.number;
    part_label =
        if truthy (get_or u.part_label "") then some (get_or u.part_label "") else s.part_label;
    include = get_or u.include s.include;
  }

  abbrev pub narrative_title : String → String → String
  narrative_title original title = lower (text_append original (text_append " " title))

  unfoldable pub refined : Update → Raw → Raw
  unfolding host_owned
  refined u s =
      host_owned s.number (narrative_title s.title (new_title u.title s.title)) (with_reply u s)

  abbrev pub put_refined : Update → ℕ → Option Segment → List Segment → List Segment
  put_refined u i none plan = plan
  put_refined u i (some s) plan = put_first (has_number i) (record s { raw = refined u s.raw }) plan

  abbrev pub apply_to : Update → Option ℕ → List Segment → List Segment
  apply_to u none plan = plan
  apply_to u (some i) plan = put_refined u i (first_match (has_number i) plan) plan

  -- `by_id` holds the segments of the plan, so that an update of one is seen there.
  unfoldable pub apply_update : Update → List Segment → List Segment
  unfolding refined
  apply_update u plan = apply_to u u.id plan

  unfoldable pub apply_updates : List (Option Update) → List Segment → Option (List Segment)
  unfolding apply_update
  apply_updates [] plan = some plan
  apply_updates (none ∷ us) plan = none
  apply_updates (some u ∷ us) plan = apply_updates us (apply_update u plan)

  unfoldable pub refine_batch : Reply → List Segment → Option (List Segment)
  unfolding apply_updates
  refine_batch unavailable plan = some plan
  refine_batch not_an_object plan = none
  refine_batch (segments us) plan = apply_updates us plan

  -- The batches from the `k`-th on.
  unfoldable pub refine_batches : ℕ → ℕ → (ℕ → Reply) → List Segment → Option (List Segment)
  unfolding refine_batch
  refine_batches zero k reply plan = some plan
  refine_batches (suc left) k reply plan = elim (refine_batch (reply k) plan) [
    | none ↦ none
    | some plan' ↦ refine_batches left (suc k) reply plan'
  ]

  -- `_REFINE_BATCH` is 150.
  unfoldable pub refine_plan : Bool → (ℕ → Reply) → List Segment → Option (List Segment)
  unfolding refine_batches needs_refine
  refine_plan has_key reply plan =
      if has_key
      then refine_batches ((count_where needs_refine plan + 149) / 150) 0 reply plan
      else some plan
