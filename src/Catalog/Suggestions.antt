-- ===== src/Catalog/Suggestions.antt =====
-- The statements of catalog/adapters/outbound/postgres.py on tag suggestions.
use reading_wiki.Prelude.{
  ℕ, suc, String, Bool, true, false, ◌&&◌, Option, none, some, List, [], ◌∷◌, ◌++◌, ◌==◌,
  first_match, put_first, is_some,
}
use reading_wiki.Errors.{pure, gets, modify, ◌>>=◌, ◌>>◌}
use reading_wiki.Catalog.Novels.{
  Catalog, Suggestion, ReviewStatus, pending, update_row, write_novel,
}

unfoldable pub insert_suggestion : ℕ → ℕ → List String → Option String → Catalog ℕ
unfolding ◌>>=◌
insert_suggestion i user tags note = do
  next ← gets (λ s. s.next_suggestion)
  modify (λ s. record s {
    suggestions =
        s.suggestions
        ++ (record {
          id = next;
          novel_id = i;
          from_user_id = user;
          tags = tags;
          note = note;
          status = pending;
          reviewed_by = none;
        }
            ∷ []);
    next_suggestion = suc next;
  })
  pure next

abbrev pub is_suggestion : ℕ → Suggestion → Bool
is_suggestion k g = g.id == k

abbrev pub is_pending : ReviewStatus → Bool
is_pending pending = true
is_pending _ = false

abbrev pub suggestion_of : ℕ → ℕ → Suggestion → Bool
suggestion_of i k g = is_suggestion k g && g.novel_id == i

unfoldable pub get_tag_suggestion : ℕ → ℕ → Catalog (Option Suggestion)
unfolding ◌>>=◌
get_tag_suggestion i k = gets (λ s. first_match (suggestion_of i k) s.suggestions)

-- Statement `apply_tags`.
unfoldable pub apply_tags : ℕ → List String → Catalog (Unit {0})
unfolding ◌>>=◌ update_row
apply_tags i tags = write_novel i (λ novel. record novel { status_tags = some tags })

abbrev pub open_suggestion : ℕ → Suggestion → Bool
open_suggestion k g = is_suggestion k g && is_pending g.status

abbrev pub review : ReviewStatus → ℕ → Suggestion → Suggestion
review status reviewer g = record g { status = status; reviewed_by = some reviewer }

-- Statement `review_tag_suggestion`: whether there was a row to review.
unfoldable pub review_tag_suggestion : ℕ → ReviewStatus → ℕ → Catalog Bool
unfolding ◌>>=◌
review_tag_suggestion k status reviewer = do
  found ← gets (λ s. first_match (open_suggestion k) s.suggestions)
  modify (λ s. record s {
    suggestions = elim (first_match (open_suggestion k) s.suggestions) [
      | none ↦ s.suggestions
      | some g ↦ put_first (open_suggestion k) (review status reviewer g) s.suggestions
    ];
  })
  pure (is_some found)
