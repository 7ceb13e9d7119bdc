-- ===== src/Codex/Chunks/Cover.antt =====
-- The chunks of `group`: the loop ends, and what it has put where.
use reading_wiki.Prelude.{
  ℕ, ◌+◌, ◌≤◌, ◌<◌, ◌≡◌, refl, ap, subst, ◌∙◌, ◌⊎◌, inl, inr, Option, some, List, [], ◌∷◌, ◌++◌,
  leb, All, arith, Bool-cases, leb_iff,
}
use mathlib.Core.List.{reverse, reverse-cons}
use reading_wiki.Codex.Chunks.{total, backtrack, available_overlap}

module _ {A : Type 0} (cost : A → ℕ) where
  pub total-append : (xs ys : List A) → total cost (xs ++ ys) ≡ total cost xs + total cost ys
  unfolding total
  total-append [] ys = omega arith
  total-append (x ∷ xs) ys = omega (arith, total-append xs ys)

  pub total-reverse : (xs : List A) → total cost (reverse xs) ≡ total cost xs
  unfolding total
  total-reverse [] = refl
  total-reverse (x ∷ xs) =
      ap (total cost) (reverse-cons x xs)
      ∙ omega (arith, total-append (reverse xs) (x ∷ []), total-reverse xs)

  -- What is kept is the front of the list, within the room there is, and counted.
  pub record Kept (available accum : ℕ) (xs kept : List A) (accum' : ℕ) : Type 0 where
    pub dropped : List A
    pub split : xs ≡ kept ++ dropped
    pub counted : accum' ≡ accum + total cost kept
    pub fits : accum' ≤ available

  pub backtrack_lem :
      (available accum : ℕ) (xs : List A)
      → accum ≤ available
      → let (kept, accum') = backtrack cost available accum xs in
        Kept available accum xs kept accum'
  unfolding backtrack total
  backtrack_lem available accum [] h = record {
    dropped = [];
    split = refl;
    counted = omega arith;
    fits = h;
  }
  backtrack_lem available accum (x ∷ xs) h = elim (Bool-cases (leb (accum + cost x) available)) [
    | inl e ↦
        let k = backtrack_lem available (accum + cost x) xs ((leb_iff _ _).0 e) in
        rw e (record {
          dropped = k.dropped;
          split = ap (λ ys. x ∷ ys) k.split;
          counted = omega (arith, k.counted);
          fits = k.fits;
        })
    | inr e ↦ rw e (record { dropped = x ∷ xs; split = refl; counted = omega arith; fits = h })
  ]

  abbrev pub AllPositive : List A → Type 0
  AllPositive = All (λ x. 0 < cost x)

module _ {A : Type 0} (cost : A → ℕ) (target overlap : ℕ) where
  -- `chunk` takes the pieces `first ∷ more` from `pieces` and leaves `rest`. It begins with the
  -- last pieces of the chunk before, which cost no more than the overlap, and it stays within the
  -- target unless it is one piece that does not.
  pub record NextChunk (before pieces chunk rest : List A) : Type 0 where
    pub skipped : List A
    pub repeated : List A
    pub first : A
    pub more : List A
    pub tail : before ≡ skipped ++ repeated
    pub contents : chunk ≡ repeated ++ (first ∷ more)
    pub order : pieces ≡ (first ∷ more) ++ rest
    pub small_overlap : total cost repeated ≤ overlap
    pub small : (total cost chunk ≤ target) ⊎ (chunk ≡ first ∷ [])

  -- The chunks take all pieces, each once and in order, but for what they repeat.
  abbrev pub Cover : List A → List A → List (List A) → Type 0
  Cover before pieces [] = pieces ≡ []
  Cover before pieces (chunk ∷ chunks) =
      (rest : List A) × (NextChunk before pieces chunk rest × Cover chunk rest chunks)

  abbrev pub Covered : List A → List A → Option (List (List A)) → Type 0
  Covered before pieces o =
      (chunks : List (List A)) × ((o ≡ some chunks) × Cover before pieces chunks)

  -- The next piece has room beside what is kept.
  abbrev pub Fits : ℕ → List A → Type 0
  Fits n [] = 1 ≤ 0
  Fits n (piece ∷ waiting) = n + cost piece ≤ target

  pub Kept-Fits :
      (piece : A) (waiting current kept : List A) (accum : ℕ)
      → Kept cost (available_overlap cost target overlap piece) 0 current kept accum
      → AllPositive cost current
      → (kept ≡ []) ⊎ Fits accum (piece ∷ waiting)
  unfolding total
  Kept-Fits piece waiting current [] accum k all = inl refl
  Kept-Fits piece waiting current (x ∷ kept) accum k all =
      let pos : AllPositive cost ((x ∷ kept) ++ k.dropped) = subst (AllPositive cost) k.split all in
      inr (ground (arith, k.counted, k.fits, pos.0))
