-- ===== src/Prelude/Lists.antt =====
-- Tables as lists of rows: the first row that meets a test, its replacement, an update of every
-- row that meets a test, counts, and a predicate on all rows.
use Prim.Native.Nat.{ℕ, zero, suc, ◌+◌, ◌≤◌}
use mathlib.Core.Path.{◌≡◌, refl, subst}
use mathlib.Core.Logic.{inl, inr}
use mathlib.Core.Bool.{Bool, true, false, not}
use mathlib.Core.Option.{Option, none, some}
use mathlib.Core.List.{List, [], ◌∷◌, ◌++◌}
use native.Mathlib.Omega.{arith}
use reading_wiki.Prelude.Tests.{if◌then◌else◌, Bool-cases, is_some}

abbrev pub All {ℓ κ} : {A : Type ℓ} → (A → Type κ) → List A → Type κ
All P [] = Unit
All P (x ∷ xs) = P x × All P xs

module _ {ℓ} {A : Type ℓ} where
  abbrev pub length : List A → ℕ
  length [] = 0
  length (x ∷ xs) = suc (length xs)

  abbrev pub get_elem? : List A → ℕ → Option A
  get_elem? [] i = none
  get_elem? (x ∷ xs) zero = some x
  get_elem? (x ∷ xs) (suc i) = get_elem? xs i

  unfoldable pub first_match : (A → Bool) → List A → Option A
  first_match p [] = none
  first_match p (x ∷ xs) = if p x then some x else first_match p xs

  -- The first row that meets `p` becomes `v`; nothing changes if there is none.
  unfoldable pub put_first : (A → Bool) → A → List A → List A
  put_first p v [] = []
  put_first p v (x ∷ xs) = if p x then v ∷ xs else x ∷ put_first p v xs

  -- `UPDATE … SET f WHERE p`
  unfoldable pub map_where : (A → Bool) → (A → A) → List A → List A
  map_where p f [] = []
  map_where p f (x ∷ xs) = (if p x then f x else x) ∷ map_where p f xs

  unfoldable pub count_where : (A → Bool) → List A → ℕ
  count_where p [] = 0
  count_where p (x ∷ xs) = let n = count_where p xs in if p x then suc n else n

  unfoldable pub select : (A → Bool) → List A → List A
  select p [] = []
  select p (x ∷ xs) = let rest = select p xs in if p x then x ∷ rest else rest

  pub first_match_holds :
      (p : A → Bool) (xs : List A) {x : A} → first_match p xs ≡ some x → p x ≡ true
  unfolding first_match
  first_match_holds p [] h = ground arith
  first_match_holds p (x ∷ xs) {x = y} h = ground (arith, first_match_holds p xs {x = y})

  -- No row meets the test exactly when the search finds none.
  pub first_match-none :
      (p : A → Bool) (xs : List A) → first_match p xs ≡ none → All (λ x. p x ≡ false) xs
  unfolding first_match
  first_match-none p [] h = tt
  first_match-none p (x ∷ xs) h = ground (arith, first_match-none p xs)

  pub first_match-put :
      (p : A → Bool) (v : A) (xs : List A)
      → p v ≡ true
      → first_match p (put_first p v xs) ≡ (if is_some (first_match p xs) then some v else none)
  unfolding first_match put_first
  first_match-put p v [] h = refl
  first_match-put p v (x ∷ xs) h = ground (arith, first_match-put p v xs h)

  -- A row that no other test can take is not seen to change by that test.
  pub first_match-put_ne :
      (p q : A → Bool) (v : A) (xs : List A)
      → ((x : A) → p x ≡ true → q x ≡ false)
      → q v ≡ false
      → first_match q (put_first p v xs) ≡ first_match q xs
  unfolding first_match put_first
  first_match-put_ne p q v [] apart h = refl
  first_match-put_ne p q v (x ∷ xs) apart h =
      ground (arith, apart x, first_match-put_ne p q v xs apart h)

  pub first_match-map_where :
      (q p : A → Bool) (f : A → A) (xs : List A)
      → ((x : A) → p x ≡ true → q (f x) ≡ q x)
      → first_match q (map_where p f xs)
        ≡ elim (first_match q xs) [ none ↦ none | some x ↦ some (if p x then f x else x) ]
  unfolding first_match map_where
  first_match-map_where q p f [] same = refl
  first_match-map_where q p f (x ∷ xs) same =
      ground (arith, same x, first_match-map_where q p f xs same)

  pub first_match-append :
      (p : A → Bool) (xs ys : List A)
      → first_match p (xs ++ ys)
        ≡ elim (first_match p xs) [ none ↦ first_match p ys | some x ↦ some x ]
  unfolding first_match
  first_match-append p [] ys = refl
  first_match-append p (x ∷ xs) ys = ground (arith, first_match-append p xs ys)

  pub first_match-select-not :
      (p : A → Bool) (xs : List A) → first_match p (select (λ x. not (p x)) xs) ≡ none
  unfolding first_match select
  first_match-select-not p [] = refl
  first_match-select-not p (x ∷ xs) = elim (Bool-cases (p x)) [
    | inl e ↦ rw e (first_match-select-not p xs)
    | inr e ↦ rw (e, e) (first_match-select-not p xs)
  ]

  pub count-append :
      (p : A → Bool) (xs ys : List A)
      → count_where p (xs ++ ys) ≡ count_where p xs + count_where p ys
  unfolding count_where
  count-append p [] ys = omega arith
  count-append p (x ∷ xs) ys = ground (arith, count-append p xs ys)

  -- Replacing a row by one that counts no more does not raise a count.
  pub count-put_le :
      (c p : A → Bool) (v : A) (xs : List A) {x : A}
      → first_match p xs ≡ some x
      → (c v ≡ true → c x ≡ true)
      → count_where c (put_first p v xs) ≤ count_where c xs
  unfolding first_match put_first count_where
  count-put_le c p v [] h keep = omega arith
  count-put_le c p v (x ∷ xs) {x = y} h keep = ground (arith, count-put_le c p v xs {x = y})

  pub count-map_where_le :
      (c p : A → Bool) (f : A → A) (xs : List A)
      → ((x : A) → p x ≡ true → c (f x) ≡ true → c x ≡ true)
      → count_where c (map_where p f xs) ≤ count_where c xs
  unfolding map_where count_where
  count-map_where_le c p f [] keep = omega arith
  count-map_where_le c p f (x ∷ xs) keep = ground (arith, keep x, count-map_where_le c p f xs keep)

  pub count_zero : (c : A → Bool) (xs : List A) → first_match c xs ≡ none → count_where c xs ≡ 0
  unfolding first_match count_where
  count_zero c [] h = refl
  count_zero c (x ∷ xs) h = ground (arith, count_zero c xs)

  pub count_one : (c : A → Bool) (x : A) → count_where c (x ∷ []) ≡ (if c x then 1 else 0)
  unfolding count_where
  count_one c x = refl

  pub count-All-false :
      (c : A → Bool) (xs : List A) → All (λ x. c x ≡ false) xs → count_where c xs ≡ 0
  unfolding count_where
  count-All-false c [] h = refl
  count-All-false c (x ∷ xs) h = ground (arith, count-All-false c xs h.1)

  pub select-All : (p : A → Bool) (xs : List A) → All (λ x. p x ≡ true) (select p xs)
  unfolding select
  select-All p [] = tt
  select-All p (x ∷ xs) = elim (Bool-cases (p x)) [
    | inl e ↦ rw e (e, select-All p xs)
    | inr e ↦ rw e (select-All p xs)
  ]

module _ {ℓ κ} {A : Type ℓ} (P : A → Type κ) where
  pub All-get_elem? : (xs : List A) (i : ℕ) {x : A} → All P xs → get_elem? xs i ≡ some x → P x
  All-get_elem? [] i all h = cc
  All-get_elem? (x ∷ xs) zero {x = y} all h = subst P (ground (arith, h)) all.0
  All-get_elem? (x ∷ xs) (suc i) {x = y} all h = All-get_elem? xs i {x = y} all.1 h

  pub All-first_match :
      (p : A → Bool) (xs : List A) {x : A} → All P xs → first_match p xs ≡ some x → P x
  unfolding first_match
  All-first_match p [] all h = cc
  All-first_match p (x ∷ xs) {x = y} all h = elim (Bool-cases (p x)) [
    | inl e ↦ subst P (ground arith) all.0
    | inr e ↦ All-first_match p xs {x = y} all.1 (ground arith)
  ]

  pub All-put : (p : A → Bool) (v : A) (xs : List A) → All P xs → P v → All P (put_first p v xs)
  unfolding put_first
  All-put p v [] all h = tt
  All-put p v (x ∷ xs) all h = elim (Bool-cases (p x)) [
    | inl e ↦ rw e (h, all.1)
    | inr e ↦ rw e (all.0, All-put p v xs all.1 h)
  ]

  pub All-map_where :
      (p : A → Bool) (f : A → A) (xs : List A)
      → ((x : A) → p x ≡ true → P x → P (f x))
      → All P xs
      → All P (map_where p f xs)
  unfolding map_where
  All-map_where p f [] keep all = tt
  All-map_where p f (x ∷ xs) keep all = elim (Bool-cases (p x)) [
    | inl e ↦ rw e (keep x e all.0, All-map_where p f xs keep all.1)
    | inr e ↦ rw e (all.0, All-map_where p f xs keep all.1)
  ]

  pub All-select : (p : A → Bool) (xs : List A) → All P xs → All P (select p xs)
  unfolding select
  All-select p [] all = tt
  All-select p (x ∷ xs) all = elim (Bool-cases (p x)) [
    | inl e ↦ rw e (all.0, All-select p xs all.1)
    | inr e ↦ rw e (All-select p xs all.1)
  ]

  pub All-append : (xs ys : List A) → All P xs → All P ys → All P (xs ++ ys)
  All-append [] ys hx hy = hy
  All-append (x ∷ xs) ys hx hy = (hx.0, All-append xs ys hx.1 hy)

  pub All-append_left : (xs ys : List A) → All P (xs ++ ys) → All P xs
  All-append_left [] ys h = tt
  All-append_left (x ∷ xs) ys h = (h.0, All-append_left xs ys h.1)

  pub All-every : (xs : List A) → ((x : A) → P x) → All P xs
  All-every [] h = tt
  All-every (x ∷ xs) h = (h x, All-every xs h)

pub All-weaken {ℓ κ μ} :
    {A : Type ℓ} (P : A → Type κ) (Q : A → Type μ) (xs : List A)
    → ((x : A) → P x → Q x)
    → All P xs
    → All Q xs
All-weaken P Q [] h all = tt
All-weaken P Q (x ∷ xs) h all = (h x all.0, All-weaken P Q xs h all.1)
