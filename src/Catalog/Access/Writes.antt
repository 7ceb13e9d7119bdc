-- ===== src/Catalog/Access/Writes.antt =====
-- Which rows of novels a call writes: those that its caller may edit.
use reading_wiki.Prelude.{
  ℕ, ◌≡◌, refl, String, Bool, true, false, not, ◌&&◌, ◌||◌, Option, none, some, List, [], ◌∷◌, ◌==◌,
  arith, first_match, put_first, select, Option-cases, Bool-cases, inl, inr, truthy, ◌⊎◌,
}
use reading_wiki.Errors.{Result-cases, pure, ◌>>=◌, ◌>>◌}
use reading_wiki.Identity.Principal.{Principal, is_admin}
use reading_wiki.Catalog.Tags.{member}
use reading_wiki.Catalog.Novels.{
  Visibility, private_novel, public_novel, global_novel, Novel, Catalog, CatalogDb, is_global,
  can_edit, can_read, has_id, update_row, Field, shelf, status_tags, contribution_policy, title,
  codex_enabled, text_column, unknown, assign, assign_all, update_metadata, set_shelf,
  with_visibility, any, is_unknown, is_null,
}
use reading_wiki.Catalog.Access.{
  readable_row, add_to_library, remove_from_library, set_visibility, update_novel, shelves,
  shelf_in, parse_visibility, word, is_shelf, is_tags, is_wrong, clean_fields, no_fields,
  change_fields, success,
}

abbrev pub owner_kept : Option ℕ → Option ℕ → Bool
owner_kept none none = true
owner_kept (some u) (some v) = u == v
owner_kept _ _ = false

abbrev pub same_bool : Bool → Bool → Bool
same_bool true b = b
same_bool false b = not b

-- A row keeps its id; one who is no admin leaves its owner, and whether it is global, as they are.
abbrev pub is_allowed : Principal → Novel → Novel → Bool
is_allowed p old new =
    new.id == old.id
    && (is_admin p
        || (owner_kept old.owner_id new.owner_id
            && same_bool (is_global old.visibility) (is_global new.visibility)))

owner_kept_refl : (o : Option ℕ) → owner_kept o o ≡ true
owner_kept_refl none = refl
owner_kept_refl (some u) = ground arith

pub is_allowed_refl : (p : Principal) (old : Novel) → is_allowed p old old ≡ true
is_allowed_refl p old = ground (arith, owner_kept_refl old.owner_id)

assign_all-is_allowed :
    (p : Principal) (fs : List Field) (old new : Novel)
    → is_allowed p old new ≡ true
    → is_allowed p old (assign_all fs new) ≡ true
unfolding assign_all
assign_all-is_allowed p [] old new h = h
assign_all-is_allowed p (f ∷ fs) old new h =
    assign_all-is_allowed p fs old (assign f new) (assigned f)
  where
    assigned : (f : Field) → is_allowed p old (assign f new) ≡ true
    assigned (title none) = h
    assigned (title (some t)) = h
    assigned (shelf t) = h
    assigned (contribution_policy t) = h
    assigned (status_tags ts) = h
    assigned (codex_enabled b) = h
    assigned (text_column c t) = h
    assigned unknown = h

-- What holds of the novels, and no write of `p` to a novel that it may edit can break.
abbrev pub IsStable : Principal → (List Novel → Type 0) → Type 0
IsStable p P =
    (i : ℕ) (old new : Novel) (novels : List Novel)
    → first_match (has_id i) novels ≡ some old
    → can_edit old (some p) ≡ true
    → is_allowed p old new ≡ true
    → P novels
    → P (put_first (has_id i) new novels)

with_visibility-is_allowed :
    (p : Principal) (v : Visibility) (user : ℕ) (old : Novel)
    → ((is_global v || is_global old.visibility) && not (is_admin p)) ≡ false
    → is_allowed p old (with_visibility v user old) ≡ true
with_visibility-is_allowed p global_novel user old h = ground arith
with_visibility-is_allowed p private_novel user old h = ground (arith, owner_kept_refl old.owner_id)
with_visibility-is_allowed p public_novel user old h = ground (arith, owner_kept_refl old.owner_id)

module _ (p : Principal) (P : List Novel → Type 0) (stable : IsStable p P) (i : ℕ) where
  -- A novel that `p` may read, with its row, or none.
  abbrev pub Found : CatalogDb → Type 0
  Found s =
      (readable_row (some p) (first_match (has_id i) s.novels) ≡ false)
      ⊎ ((old : Novel) × ((first_match (has_id i) s.novels ≡ some old)
            × (can_read old (some p) ≡ true)))

  pub found : (s : CatalogDb) → Found s
  found s = elim (Option-cases (first_match (has_id i) s.novels)) [
    | inl e ↦ inl (rw e refl)
    | inr (old, e) ↦ elim (Bool-cases (can_read old (some p))) [
      | inl r ↦ inr (old, (e, r))
      | inr r ↦ inl (rw e r)
    ]
  ]

  pub write-stable :
      (novels : List Novel) (old : Novel) (f : Novel → Novel)
      → first_match (has_id i) novels ≡ some old
      → can_edit old (some p) ≡ true
      → is_allowed p old (f old) ≡ true
      → P novels
      → P (update_row i f novels)
  unfolding update_row
  write-stable novels old f e c allowed h =
      rw (e, update_row) (stable i old (f old) novels e c allowed h)

  pub add_to_library-stable : (s : CatalogDb) → P s.novels → P (add_to_library i p s).1.novels
  unfolding add_to_library
  add_to_library-stable s h = elim (found s) [ inl e ↦ rw e h | inr (old, (e, r)) ↦ rw (e, r) h ]

  pub remove_from_library-stable :
      (s : CatalogDb) → P s.novels → P (remove_from_library i p s).1.novels
  unfolding remove_from_library
  remove_from_library-stable s h = h

  set_visibility_to :
      (s : CatalogDb)
      → P s.novels
      → (t : Option String) (v : Visibility) → parse_visibility (word t) ≡ some v
      → P (set_visibility i p t s).1.novels
  unfolding set_visibility
  set_visibility_to s h t v parsed = rw parsed (elim (found s) [
    | inl e ↦ rw e h
    | inr (old, (e, r)) ↦
        rw (e, r)
          (elim (Bool-cases (can_edit old (some p))) [
            | inr c ↦ rw c h
            | inl c ↦
                rw c
                  (elim (Bool-cases
                    ((is_global v || is_global old.visibility) && not (is_admin p))) [
                      | inl g ↦ rw g h
                      | inr g ↦ rw g (
                          write-stable s.novels old (with_visibility v p.user_id) e c
                            (with_visibility-is_allowed p v p.user_id old g) h)
                    ])
          ])
  ])

  pub set_visibility-stable :
      (s : CatalogDb) → P s.novels → (t : Option String) → P (set_visibility i p t s).1.novels
  unfolding set_visibility
  set_visibility-stable s h t = elim (Option-cases (parse_visibility (word t))) [
    | inl e ↦ rw e h
    | inr (v, e) ↦ set_visibility_to s h t v e
  ]

  then_pure :
      {A : Type 0} (a : A) (m : Catalog (Unit {0})) (s : CatalogDb)
      → P (m s).1.novels
      → P ((m >> pure a) s).1.novels
  unfolding ◌>>=◌
  then_pure a m s h = elim (Result-cases (m s).0) [ inl (x, r) ↦ rw r h | inr (y, r) ↦ rw r h ]

  update_metadata-stable :
      (s : CatalogDb) (old : Novel)
      → first_match (has_id i) s.novels ≡ some old
      → can_edit old (some p) ≡ true
      → P s.novels
      → (fs : List Field) → P (update_metadata i fs s).1.novels
  unfolding update_metadata
  update_metadata-stable s old e c h fs = elim (Bool-cases (any is_unknown fs)) [
    | inl u ↦ rw u h
    | inr u ↦ rw u (elim (Bool-cases (any is_null fs)) [
      | inl n ↦ rw n h
      | inr n ↦ rw n (
          write-stable s.novels old (assign_all fs) e c
            (assign_all-is_allowed p fs old old (is_allowed_refl p old)) h)
    ])
  ]

  change_fields-stable :
      (s : CatalogDb) (old : Novel)
      → first_match (has_id i) s.novels ≡ some old
      → P s.novels
      → (fs : List Field) → P (change_fields i p old fs s).1.novels
  unfolding change_fields
  change_fields-stable s old e h fs =
      elim (Bool-cases (any is_tags fs && not (can_edit old (some p)))) [
        | inl t ↦ rw t h
        | inr t ↦ rw t (elim (Result-cases (clean_fields fs)) [
          | inl (x, r) ↦ rw r h
          | inr (clean, r) ↦ rw r (elim (Bool-cases (no_fields clean)) [
            | inl n ↦ rw n h
            | inr n ↦ rw n (elim (Bool-cases (can_edit old (some p))) [
              | inr c ↦ rw c h
              | inl c ↦ rw c (elim (Bool-cases (any is_wrong clean)) [
                | inl w ↦ rw w h
                | inr w ↦ rw w (
                    then_pure success (update_metadata i clean) s
                      (update_metadata-stable s old e c h clean))
              ])
            ])
          ])
        ])
      ]

  pub update_novel-stable :
      (s : CatalogDb)
      → P s.novels
      → (requested : List Field) → P (update_novel i p requested s).1.novels
  unfolding update_novel set_shelf
  update_novel-stable s h requested = elim (Bool-cases (no_fields requested)) [
    | inl n ↦ rw n h
    | inr n ↦ rw n (elim (found s) [
      | inl e ↦ rw e h
      | inr (old, (e, r)) ↦
          rw (e, r)
            (elim (Option-cases (shelf_in requested)) [
              | inl k ↦
                  rw k (change_fields-stable s old e h (select (λ f. not (is_shelf f)) requested))
              | inr (t, k) ↦
                  rw k (elim (Bool-cases (truthy (word t) && not (member (word t) shelves))) [
                    | inl w ↦ rw w h
                    | inr w ↦
                        rw w (
                          change_fields-stable _ old e h (select (λ f. not (is_shelf f)) requested))
                  ])
            ])
    ])
  ]
