-- ===== src/Catalog/Calls.antt =====
-- The calls of the catalog, one after the other, whoever makes them.
mod Tests
use reading_wiki.Prelude.{
  ℕ, ◌≡◌, refl, sym, ap, ◌∙◌, subst, String, Bool, true, false, not, ◌&&◌, ◌||◌, Option, none, some,
  List, [], ◌∷◌, ◌==◌, arith, first_match, put_first, first_match_holds, first_match-put,
  first_match-put_ne, ==_iff, All, Bool-cases, Option-cases, inl, inr, if◌then◌else◌,
}
use reading_wiki.Identity.Principal.{Principal, is_admin}
use reading_wiki.Catalog.Novels.{Novel, CatalogDb, is_global, can_edit, has_id, Field}
use reading_wiki.Catalog.Access.{
  add_to_library, remove_from_library, set_visibility, update_novel, suggest_tags,
  accept_tag_suggestion, reject_tag_suggestion,
}
use reading_wiki.Catalog.Access.Writes.{
  IsStable, is_allowed, owner_kept, same_bool, add_to_library-stable, remove_from_library-stable,
  set_visibility-stable, update_novel-stable,
}
use reading_wiki.Catalog.Access.Suggestions.{
  suggest_tags-stable, accept_tag_suggestion-stable, reject_tag_suggestion-stable,
}

pub data Call : Type 0 where
  add remove : ℕ → Call
  publish : ℕ → Option String → Call
  update : ℕ → List Field → Call
  suggest : ℕ → List String → Option String → Call
  accept reject : ℕ → ℕ → Call

-- The state after the call, whether it returned or raised.
unfoldable pub call : Principal → Call → CatalogDb → CatalogDb
call p (add i) s = (add_to_library i p s).1
call p (remove i) s = (remove_from_library i p s).1
call p (publish i t) s = (set_visibility i p t s).1
call p (update i fs) s = (update_novel i p fs s).1
call p (suggest i tags remark) s = (suggest_tags i p tags remark s).1
call p (accept i k) s = (accept_tag_suggestion i k p s).1
call p (reject i k) s = (reject_tag_suggestion i k p s).1

unfoldable pub call_all : List (Principal × Call) → CatalogDb → CatalogDb
unfolding call
call_all [] s = s
call_all ((p, c) ∷ calls) s = call_all calls (call p c s)

module _ (p : Principal) (P : List Novel → Type 0) (stable : IsStable p P) where
  call-stable : (c : Call) (s : CatalogDb) → P s.novels → P (call p c s).novels
  unfolding call
  call-stable (add i) s h = add_to_library-stable p P stable i s h
  call-stable (remove i) s h = remove_from_library-stable p P stable i s h
  call-stable (publish i t) s h = set_visibility-stable p P stable i s h t
  call-stable (update i fs) s h = update_novel-stable p P stable i s h fs
  call-stable (suggest i tags remark) s h = suggest_tags-stable p P stable i s h tags remark
  call-stable (accept i k) s h = accept_tag_suggestion-stable p P stable i s h k
  call-stable (reject i k) s h = reject_tag_suggestion-stable p P stable i s h k

-- ── the row after a write ──

module _ (i n : ℕ) (old new : Novel) (novels : List Novel)
    (e : first_match (has_id i) novels ≡ some old) where
  keeps_id : new.id == old.id ≡ true → has_id i new ≡ true
  keeps_id same = ground (arith, same, first_match_holds (has_id i) novels {x = old} e)

  put_own :
      new.id == old.id ≡ true
      → i == n ≡ true
      → (first_match (has_id n) novels ≡ some old)
        × (first_match (has_id n) (put_first (has_id i) new novels) ≡ some new)
  put_own same own =
      subst
        (λ m.
          (first_match (has_id m) novels ≡ some old)
          × (first_match (has_id m) (put_first (has_id i) new novels) ≡ some new))
        ((==_iff i n).0 own) (e, first_match-put (has_id i) new novels (keeps_id same) ∙ rw e refl)

  put_apart :
      new.id == old.id ≡ true
      → i == n ≡ false
      → first_match (has_id n) (put_first (has_id i) new novels) ≡ first_match (has_id n) novels
  put_apart same apart =
      first_match-put_ne (has_id i) (has_id n) new novels (λ x found. ground (arith, found, apart))
        (ground (arith, keeps_id same, apart))

-- ── a novel that the callers may not edit ──

module _ (n : ℕ) (novel : Novel) where
  abbrev pub HasRow : List Novel → Type 0
  HasRow novels = first_match (has_id n) novels ≡ some novel

  -- The caller is neither the owner nor an admin.
  abbrev pub IsOutsider : Principal × Call → Type 0
  IsOutsider (p, c) = can_edit novel (some p) ≡ false

  outsider-IsStable : (p : Principal) → can_edit novel (some p) ≡ false → IsStable p HasRow
  outsider-IsStable p outside i old new novels e c allowed h = elim (Bool-cases (i == n)) [
    | inl own ↦ absurd (
        ground
          (arith, outside, c, (put_own i n old new novels e (ground (arith, allowed)) own).0, h))
    | inr apart ↦ put_apart i n old new novels e (ground (arith, allowed)) apart ∙ h
  ]

  -- Where a novel may not be edited by the callers, being neither its owner nor admins, its row is
  -- the same after any calls of theirs.
  pub call_all-row_of_other :
      (calls : List (Principal × Call)) (s : CatalogDb)
      → All IsOutsider calls
      → first_match (has_id n) s.novels ≡ some novel
      → first_match (has_id n) (call_all calls s).novels ≡ some novel
  unfolding call_all
  call_all-row_of_other [] s outside h = h
  call_all-row_of_other ((p, c) ∷ calls) s outside h =
      call_all-row_of_other calls _ outside.1
        (call-stable p HasRow (outsider-IsStable p outside.0) c s h)

-- ── callers who are no admins ──

abbrev pub owner_in : Option Novel → Option ℕ
owner_in none = none
owner_in (some novel) = novel.owner_id

abbrev pub global_in : Option Novel → Bool
global_in none = false
global_in (some novel) = is_global novel.visibility

same_owner : (a b : Option ℕ) → owner_kept a b ≡ true → b ≡ a
same_owner none none h = refl
same_owner none (some u) h = absurd (ground (arith, h))
same_owner (some u) none h = absurd (ground (arith, h))
same_owner (some u) (some v) h = ground (arith, h)

same_global : (a b : Bool) → same_bool a b ≡ true → b ≡ a
same_global a b h = ground (arith, h)

module _ (n : ℕ) where
  abbrev pub IsPlain : Principal × Call → Type 0
  IsPlain (p, c) = is_admin p ≡ false

  module _ (novels : List Novel) where
    abbrev pub SameHands : List Novel → Type 0
    SameHands now =
        (owner_in (first_match (has_id n) now) ≡ owner_in (first_match (has_id n) novels))
        × (global_in (first_match (has_id n) now) ≡ global_in (first_match (has_id n) novels))

    plain-IsStable : (p : Principal) → is_admin p ≡ false → IsStable p SameHands
    plain-IsStable p plain i old new now e c allowed h = elim (Bool-cases (i == n)) [
      | inl own ↦
          let (was, now') = put_own i n old new now e (ground (arith, allowed)) own in
          (
            ap owner_in now'
                ∙ (same_owner old.owner_id new.owner_id (ground (arith, allowed, plain))
                    ∙ (sym (ap owner_in was) ∙ h.0)),
            ap global_in now'
                ∙ (same_global _ _ (ground (arith, allowed, plain))
                    ∙ (sym (ap global_in was) ∙ h.1)),
          )
      | inr apart ↦ rw (put_apart i n old new now e (ground (arith, allowed)) apart) h
    ]

    plain_calls :
        (calls : List (Principal × Call)) (s : CatalogDb)
        → All IsPlain calls
        → SameHands s.novels
        → SameHands (call_all calls s).novels
    unfolding call_all
    plain_calls [] s plain h = h
    plain_calls ((p, c) ∷ calls) s plain h =
        plain_calls calls _ plain.1 (call-stable p SameHands (plain-IsStable p plain.0) c s h)

  -- Callers who are no admins never change who owns a novel, nor move a novel into the global
  -- library or out of it, whatever calls they make.
  pub call_all-hands :
      (calls : List (Principal × Call)) (s : CatalogDb)
      → All IsPlain calls
      → (owner_in (first_match (has_id n) (call_all calls s).novels)
          ≡ owner_in (first_match (has_id n) s.novels))
        × (global_in (first_match (has_id n) (call_all calls s).novels)
            ≡ global_in (first_match (has_id n) s.novels))
  call_all-hands calls s plain = plain_calls s.novels calls s plain (refl, refl)
