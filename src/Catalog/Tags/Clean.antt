-- ===== src/Catalog/Tags/Clean.antt =====
-- What cleaning gives: distinct known tags, at most one of a group.
use mathlib.Core.List.{map}
use reading_wiki.Prelude.{
  lower, ◌≡◌, refl, ap, ap₂, subst, String, Bool, true, false, not, ◌&&◌, ◌||◌, some, List, [], ◌∷◌,
  str_eq, eq_iff, eq_refl, strip, select, All, All-every, select-All, Bool-cases, inl, inr, arith,
}
use reading_wiki.Errors.{ok}
use reading_wiki.Catalog.Tags.{
  member, status_group, translation_group, status_tags, clean_tag, unique, is_known, known_tags,
  too_many, clean_status_tags,
}

abbrev pub IsDistinct : List String → Type 0
IsDistinct [] = Unit
IsDistinct (t ∷ ts) = (member t ts ≡ false) × IsDistinct ts

same : (t u : String) → str_eq u t ≡ true → u ≡ t
same t u e = (eq_iff u t).0 e

module _ (t : String) where
  member-select :
      (p : String → Bool) (ts : List String) → member t (select p ts) ≡ (p t && member t ts)
  unfolding member select
  member-select p [] = ground arith
  member-select p (u ∷ ts) = elim (Bool-cases (str_eq u t)) [
    | inl e ↦ ground (arith, member-select p ts, ap p (same t u e))
    | inr e ↦ ground (arith, member-select p ts)
  ]

  member-unique :
      (seen ts : List String) → member t (unique seen ts) ≡ (member t ts && not (member t seen))
  unfolding member unique
  member-unique seen [] = refl
  member-unique seen (u ∷ ts) = elim (Bool-cases (str_eq u t)) [
    | inl e ↦ ground (
      arith,
      member-unique seen ts,
      member-unique (u ∷ seen) ts,
      ap (λ v. member v seen) (same t u e),
    )
    | inr e ↦ ground (arith, member-unique seen ts, member-unique (u ∷ seen) ts)
  ]

-- ── distinct tags ──

unique_fresh : (t : String) (seen ts : List String) → member t (unique (t ∷ seen) ts) ≡ false
unfolding member
unique_fresh t seen ts = ground (arith, member-unique t (t ∷ seen) ts, eq_refl t)

unique-IsDistinct : (seen ts : List String) → IsDistinct (unique seen ts)
unfolding unique
unique-IsDistinct seen [] = tt
unique-IsDistinct seen (t ∷ ts) = elim (Bool-cases (member t seen)) [
  | inl e ↦ rw (e, IsDistinct) (unique-IsDistinct seen ts)
  | inr e ↦ rw (e, IsDistinct) (unique_fresh t seen ts, unique-IsDistinct (t ∷ seen) ts)
]

select-IsDistinct :
    (p : String → Bool) (ts : List String) → IsDistinct ts → IsDistinct (select p ts)
unfolding select
select-IsDistinct p [] d = tt
select-IsDistinct p (t ∷ ts) d = elim (Bool-cases (p t)) [
  | inl e ↦ rw e (ground (arith, member-select t p ts, d.0), select-IsDistinct p ts d.1)
  | inr e ↦ rw e (select-IsDistinct p ts d.1)
]

-- ── clean tags are left as they are ──

str_eq_sym : (t u : String) → str_eq u t ≡ false → str_eq t u ≡ false
str_eq_sym t u h = elim (Bool-cases (str_eq t u)) [
  | inl e ↦ absurd (ground (arith, h, subst (λ v. str_eq v t ≡ true) (same u t e) (eq_refl t)))
  | inr e ↦ e
]

unseen :
    (t : String) (seen us : List String)
    → member t us ≡ false
    → All (λ u. member u seen ≡ false) us
    → All (λ u. member u (t ∷ seen) ≡ false) us
unfolding member
unseen t seen [] h all = tt
unseen t seen (u ∷ us) h all =
    (ground (arith, str_eq_sym t u (ground arith), all.0), unseen t seen us (ground arith) all.1)

unique-clean :
    (seen ts : List String)
    → IsDistinct ts
    → All (λ t. member t seen ≡ false) ts
    → unique seen ts ≡ ts
unfolding unique
unique-clean seen [] d all = refl
unique-clean seen (t ∷ ts) d all =
    rw (all.0, unique)
      (ap (λ us. t ∷ us) (unique-clean (t ∷ seen) ts d.1 (unseen t seen ts d.0 all.1)))

select-clean : (p : String → Bool) (ts : List String) → All (λ t. p t ≡ true) ts → select p ts ≡ ts
unfolding select
select-clean p [] all = refl
select-clean p (t ∷ ts) all = rw (all.0) (ap (λ us. t ∷ us) (select-clean p ts all.1))

All-clean : All (λ t. clean_tag t ≡ t) status_tags
unfolding lower strip
All-clean = (
  refl,
  (
    refl,
    (
      refl,
      (
        refl,
        (refl, (refl, (refl, (refl, (refl, (refl, (refl, (refl, (refl, (refl, (refl, tt))))))))))),
      ),
    ),
  ),
)

pick : (P : String → Type 0) (t : String) (ts : List String) → All P ts → member t ts ≡ true → P t
unfolding member
pick P t [] all h = absurd (ground arith)
pick P t (u ∷ ts) all h = elim (Bool-cases (str_eq u t)) [
  | inl e ↦ subst P (same t u e) all.0
  | inr e ↦ pick P t ts all.1 (ground arith)
]

map-clean : (ts : List String) → All (λ t. is_known t ≡ true) ts → map clean_tag ts ≡ ts
map-clean [] all = refl
map-clean (t ∷ ts) all =
    ap₂ (λ u us. u ∷ us) (pick (λ u. clean_tag u ≡ u) t status_tags All-clean all.0)
      (map-clean ts all.1)

All-unseen : (ts : List String) → All (λ t. member t [] ≡ false) ts
unfolding member
All-unseen ts = All-every (λ t. member t [] ≡ false) ts (λ t. refl)

known_tags-clean :
    (ts : List String) → IsDistinct ts → All (λ t. is_known t ≡ true) ts → known_tags ts ≡ ts
known_tags-clean ts d all =
    (rw (map-clean ts all, unique-clean [] ts d (All-unseen ts)) (select-clean is_known ts all))

abbrev pub is_clean : List String → Bool
is_clean tags = not (too_many status_group tags || too_many translation_group tags)

decided :
    (raw tags : List String)
    → clean_status_tags (some raw) ≡ ok tags
    → (known_tags raw ≡ tags) × (is_clean (known_tags raw) ≡ true)
unfolding clean_status_tags
decided raw tags h = elim (Bool-cases (is_clean (known_tags raw))) [
  | inl e ↦ (ground (arith, h, e), e)
  | inr e ↦ absurd (ground (arith, h, e))
]

clean_again :
    (tags : List String)
    → IsDistinct tags
    → All (λ t. is_known t ≡ true) tags
    → is_clean tags ≡ true
    → clean_status_tags (some tags) ≡ ok tags
unfolding clean_status_tags
clean_again tags d all e = rw (known_tags-clean tags d all) (ground (arith, e))

member-select-unique :
    (t : String) (p : String → Bool) (ts : List String)
    → member t (select p (unique [] ts)) ≡ (p t && member t ts)
unfolding member
member-select-unique t p ts =
    ground (arith, member-select t p (unique [] ts), member-unique t [] ts)

-- Where cleaning succeeds, its tags are distinct; they are exactly the known tags among those asked
-- for, with white space and letter case set aside; at most one is of each radio group; and cleaning
-- them again changes nothing.
pub clean_status_tags-known :
    (raw tags : List String) (t : String)
    → clean_status_tags (some raw) ≡ ok tags
    → IsDistinct tags
      × ((member t tags ≡ (is_known t && member t (map clean_tag raw)))
          × ((is_clean tags ≡ true) × (clean_status_tags (some tags) ≡ ok tags)))
clean_status_tags-known raw tags t h =
    let (e, c) = decided raw tags h in
    let distinct : IsDistinct (known_tags raw) =
      select-IsDistinct is_known (unique [] (map clean_tag raw))
        (unique-IsDistinct [] (map clean_tag raw)) in
    subst
      (λ ts.
        IsDistinct ts
        × ((member t ts ≡ (is_known t && member t (map clean_tag raw)))
            × ((is_clean ts ≡ true) × (clean_status_tags (some ts) ≡ ok ts))))
      e
      (
        distinct,
        (
          member-select-unique t is_known (map clean_tag raw),
          (
            c,
            clean_again (known_tags raw) distinct
                (select-All is_known (unique [] (map clean_tag raw))) c,
          ),
        ),
      )
