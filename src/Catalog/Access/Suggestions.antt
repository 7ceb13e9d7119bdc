-- ===== src/Catalog/Access/Suggestions.antt =====
-- Tag suggestions write the tags of a novel for its editors alone.
use reading_wiki.Prelude.{
  ℕ, String, ◌||◌, Option, some, List, first_match, Option-cases, Bool-cases, inl, inr,
}
use reading_wiki.Errors.{Result-cases}
use reading_wiki.Identity.Principal.{Principal, is_admin}
use reading_wiki.Catalog.Tags.{clean_status_tags}
use reading_wiki.Catalog.Novels.{Novel, CatalogDb, owned_by, is_shared, can_edit}
use reading_wiki.Catalog.Suggestions.{suggestion_of, is_pending}
use reading_wiki.Catalog.Access.{suggest_tags, accept_tag_suggestion, reject_tag_suggestion}
use reading_wiki.Catalog.Access.Writes.{IsStable, found, write-stable, is_allowed_refl}

module _ (p : Principal) (P : List Novel → Type 0) (stable : IsStable p P) (i : ℕ) where
  pub suggest_tags-stable :
      (s : CatalogDb)
      → P s.novels
      → (tags : List String) (remark : Option String) → P (suggest_tags i p tags remark s).1.novels
  unfolding suggest_tags
  suggest_tags-stable s h tags remark = elim (found p P stable i s) [
    | inl e ↦ rw e h
    | inr (old, (e, r)) ↦
        rw (e, r)
          (elim (Bool-cases (owned_by old.owner_id p.user_id || is_admin p)) [
            | inl o ↦ rw o h
            | inr o ↦ rw o (elim (Bool-cases (is_shared old.visibility)) [
              | inr f ↦ rw f h
              | inl f ↦ rw f (elim (Result-cases (clean_status_tags (some tags))) [
                | inl (x, c) ↦ rw c h
                | inr (ts, c) ↦ rw c h
              ])
            ])
          ])
  ]

  pub accept_tag_suggestion-stable :
      (s : CatalogDb) → P s.novels → (k : ℕ) → P (accept_tag_suggestion i k p s).1.novels
  unfolding accept_tag_suggestion
  accept_tag_suggestion-stable s h k = elim (found p P stable i s) [
    | inl e ↦ rw e h
    | inr (old, (e, r)) ↦
        rw (e, r)
          (elim (Bool-cases (can_edit old (some p))) [
            | inr c ↦ rw c h
            | inl c ↦ rw c (elim (Option-cases (first_match (suggestion_of i k) s.suggestions)) [
              | inl g ↦ rw g h
              | inr (g, there) ↦ rw there (elim (Bool-cases (is_pending g.status)) [
                | inr u ↦ rw u h
                | inl u ↦ rw u (elim (Result-cases (clean_status_tags (some g.tags))) [
                  | inl (x, t) ↦ rw t h
                  | inr (ts, t) ↦ rw t (
                      write-stable p P stable i s.novels old
                        (λ novel. record novel { status_tags = some ts }) e c
                        (is_allowed_refl p old) h)
                ])
              ])
            ])
          ])
  ]

  pub reject_tag_suggestion-stable :
      (s : CatalogDb) → P s.novels → (k : ℕ) → P (reject_tag_suggestion i k p s).1.novels
  unfolding reject_tag_suggestion
  reject_tag_suggestion-stable s h k = elim (found p P stable i s) [
    | inl e ↦ rw e h
    | inr (old, (e, r)) ↦
        rw (e, r)
          (elim (Bool-cases (can_edit old (some p))) [
            | inr c ↦ rw c h
            | inl c ↦ rw c (elim (Option-cases (first_match (suggestion_of i k) s.suggestions)) [
              | inl g ↦ rw g h
              | inr (g, there) ↦
                  rw there
                    (elim (Bool-cases (is_pending g.status)) [ inr u ↦ rw u h | inl u ↦ rw u h ])
            ])
          ])
  ]
