-- ===== src/Prelude/Selection.antt =====
-- The oldest row that meets a test.
use Prim.Native.Nat.{ℕ, ◌≤◌}
use mathlib.Core.Path.{◌≡◌, refl, subst}
use mathlib.Core.Logic.{inl, inr}
use mathlib.Core.Bool.{Bool, true, false, ◌&&◌}
use mathlib.Core.Option.{Option, none, some}
use mathlib.Core.List.{List, [], ◌∷◌}
use native.Mathlib.Omega.{arith}
use reading_wiki.Prelude.Tests.{if◌then◌else◌, leb, Bool-cases, Option-cases}
use reading_wiki.Prelude.Lists.{All, All-weaken}

-- `SELECT … WHERE p ORDER BY key ASC LIMIT 1`; of equal keys the first row is taken.
module _ {ℓ} {A : Type ℓ} (p : A → Bool) (key : A → ℕ) where
  abbrev pub earlier : A → Option A → Option A
  earlier x none = some x
  earlier x (some y) = if leb (key x) (key y) then some x else some y

  unfoldable pub oldest_where : List A → Option A
  oldest_where [] = none
  oldest_where (x ∷ xs) = let r = oldest_where xs in if p x then earlier x r else r

  pub oldest_where_holds : (xs : List A) (x : A) → oldest_where xs ≡ some x → p x ≡ true
  unfolding oldest_where
  oldest_where_holds [] x h = cc
  oldest_where_holds (y ∷ xs) x h = elim (Option-cases (oldest_where xs)) [
    | inl e ↦ ground arith
    | inr (z, e) ↦ ground (arith, oldest_where_holds xs z e)
  ]

  -- No row is left out: nothing is chosen exactly when no row meets the test.
  pub oldest_where-none : (xs : List A) → oldest_where xs ≡ none → All (λ x. p x ≡ false) xs
  unfolding oldest_where
  oldest_where-none [] h = tt
  oldest_where-none (y ∷ xs) h = elim (Option-cases (oldest_where xs)) [
    | inl e ↦ (ground arith, oldest_where-none xs e)
    | inr (z, e) ↦ absurd (ground arith)
  ]

  pub oldest_where-All : (xs : List A) → All (λ x. p x ≡ false) xs → oldest_where xs ≡ none
  unfolding oldest_where
  oldest_where-All [] h = refl
  oldest_where-All (y ∷ xs) h = ground (arith, oldest_where-All xs h.1)

  -- The chosen row has the least key among those that meet the test.
  pub oldest_where_least :
      (xs : List A) (x : A) → oldest_where xs ≡ some x → All (λ y. p y ≡ true → key x ≤ key y) xs
  unfolding oldest_where
  oldest_where_least [] x h = tt
  oldest_where_least (y ∷ xs) x h = elim (Option-cases (oldest_where xs)) [
    | inl e ↦ (
      λ py. ground arith,
      All-weaken (λ z. p z ≡ false) (λ z. p z ≡ true → key x ≤ key z) xs (λ z no_z py. cc)
          (oldest_where-none xs e),
    )
    | inr (w, e) ↦ (
      λ py. ground arith,
      All-weaken (λ z. p z ≡ true → key w ≤ key z) (λ z. p z ≡ true → key x ≤ key z) xs
          (λ z least pz. ground (arith, least pz)) (oldest_where_least xs w e),
    )
  ]

  pub All-oldest_where {κ} :
      (P : A → Type κ) (xs : List A) (x : A) → All P xs → oldest_where xs ≡ some x → P x
  unfolding oldest_where
  All-oldest_where P [] x all h = cc
  All-oldest_where P (y ∷ xs) x all h = elim (Option-cases (oldest_where xs)) [
    | inl e ↦ subst P (ground arith) all.0
    | inr (w, e) ↦ elim (Bool-cases (p y && leb (key y) (key w))) [
      | inl first ↦ subst P (ground arith) all.0
      | inr later ↦ subst P (ground arith) (All-oldest_where P xs w all.1 e)
    ]
  ]
