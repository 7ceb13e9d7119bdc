-- ===== src/Reading/Spoilers.antt =====
-- No ceiling reaches beyond what the reader has opened.
mod Tests
use reading_wiki.Prelude.{
  ℕ, ◌≡◌, refl, ap, ◌∙◌, subst, Option, none, some, List, [], ◌∷◌, get_or, select,
}
use mathlib.Core.List.{map}
use reading_wiki.Errors.{Result, ok}
use reading_wiki.Identity.Principal.{Principal}
use reading_wiki.Catalog.Novels.{Novel}
use reading_wiki.Reading.Tables.{
  Chapter, ReadingDb, ceiling_of, least, greatest, numbers, of_novel, number_of,
}
use reading_wiki.Reading.Progress.{Float, EffectiveCeiling, effective_ceiling}
use reading_wiki.Reading.Openings.{Readable, Call, call_all, all_opened}
use reading_wiki.Reading.Openings.Runs.{runs-chapters, call_all-greatest}
use reading_wiki.Reading.Ceiling.{IsWithin, first_chapter, last_chapter, effective_ceiling-Given}

abbrev pub numbers_of : ℕ → List Chapter → List ℕ
numbers_of i chapters = map number_of (select (of_novel i) chapters)

abbrev Limits : List ℕ → Option ℕ → EffectiveCeiling → Type 0
Limits ns trusted c =
    let low = get_or (least ns) 0 in IsWithin low (get_or (greatest ns) 0) (get_or trusted low) c

module _ (start finish i : ℕ) (p : Principal) (readable : Readable) (requested : Option Float) where
  -- A reader who opened no chapter of a novel before, and who may read it, gets a ceiling after any
  -- calls of any readers, and nothing is written. Whatever is asked for, it lies between the first
  -- chapter and the last, and does not go beyond the last chapter that this reader has opened since,
  -- or the first chapter of the novel where there is none.
  pub effective_ceiling-opened :
      (calls : List (Readable × Call)) (s : ReadingDb) {novel : Novel} (n : ℕ) (ns : List ℕ)
      → readable i (some p) ≡ ok novel
      → numbers i s ≡ n ∷ ns
      → ceiling_of i p.user_id s ≡ none
      → (c : EffectiveCeiling) × ((effective_ceiling readable i
              (some p)
              requested
              (call_all start finish calls s)
            ≡ (ok c, call_all start finish calls s))
          × IsWithin
              (first_chapter i s)
              (last_chapter i s)
              (get_or (greatest (all_opened i p.user_id s.chapters calls)) (first_chapter i s))
              c)
  effective_ceiling-opened calls s n ns there chapters fresh =
      let same = ap (numbers_of i) (runs-chapters start finish i p.user_id calls s) in
      let (c, (e, w)) =
        effective_ceiling-Given readable i (some p) requested (call_all start finish calls s) n ns
          there (same ∙ chapters) in
      (
        c,
        (
          e,
          subst (λ ms. Limits ms (greatest (all_opened i p.user_id s.chapters calls)) c) same
              (subst (λ t. Limits (numbers i (call_all start finish calls s)) t c)
                (call_all-greatest start finish i p.user_id calls s fresh) w),
        ),
      )
