-- ===== src/Codex/Fuse/Order.antt =====
-- Sorting puts the entries of a fusion in order.
use reading_wiki.Prelude.{
  ◌≡◌, true, false, not, ◌&&◌, ◌||◌, List, [], ◌∷◌, arith, All, All-weaken, Bool-cases, inl, inr,
}
use reading_wiki.Codex.Fuse.{Scores, Entry, before, insert_entry, sort_entries}

-- What is relied on of `>` between scores that are numbers.
pub record IsOrder (f : Scores) : Type 0 where
  pub asymmetric : (a b : f.Score) → (f.above a b && f.above b a) ≡ false
  pub splits : (a b c : f.Score) → (not (f.above a c) || (f.above a b || f.above b c)) ≡ true

module _ (f : Scores) where
  -- No entry comes before one that stands to its left.
  abbrev pub InOrder : List (Entry f) → Type 0
  InOrder [] = Unit
  InOrder (e ∷ es) = All (λ x. before f x e ≡ false) es × InOrder es

module _ (f : Scores) (laws : IsOrder f) where
  before-asymmetric : (a b : Entry f) → before f a b ≡ true → before f b a ≡ false
  unfolding before
  before-asymmetric a b h = ground (arith, laws.asymmetric a.score b.score)

  before-splits :
      (a b c : Entry f) → before f b a ≡ false → before f c b ≡ false → before f c a ≡ false
  unfolding before
  before-splits a b c h k = ground (
    arith,
    laws.splits c.score b.score a.score,
    laws.splits a.score b.score c.score,
    laws.splits b.score a.score c.score,
    laws.splits b.score c.score a.score,
    laws.splits a.score c.score b.score,
    laws.asymmetric a.score b.score,
    laws.asymmetric b.score c.score,
    laws.asymmetric a.score c.score,
  )

  insert-All :
      (low e : Entry f) (es : List (Entry f))
      → before f e low ≡ false
      → All (λ x. before f x low ≡ false) es
      → All (λ x. before f x low ≡ false) (insert_entry f e es)
  unfolding insert_entry
  insert-All low e [] h all = (h, tt)
  insert-All low e (x ∷ xs) h all = elim (Bool-cases (before f e x)) [
    | inl b ↦ rw b (h, all)
    | inr b ↦ rw b (all.0, insert-All low e xs h all.1)
  ]

  insert-InOrder :
      (e : Entry f) (es : List (Entry f)) → InOrder f es → InOrder f (insert_entry f e es)
  unfolding insert_entry
  insert-InOrder e [] h = (tt, tt)
  insert-InOrder e (x ∷ xs) h = elim (Bool-cases (before f e x)) [
    | inl b ↦
        let first : before f x e ≡ false = before-asymmetric e x b in
        rw b (
          (
            first,
            All-weaken (λ y. before f y x ≡ false) (λ y. before f y e ≡ false) xs
                (λ y k. before-splits e x y first k) h.0,
          ),
          h,
        )
    | inr b ↦ rw b (insert-All x e xs b h.0, insert-InOrder e xs h.1)
  ]

  pub sort-InOrder : (es : List (Entry f)) → InOrder f (sort_entries f es)
  unfolding sort_entries
  sort-InOrder [] = tt
  sort-InOrder (e ∷ es) = insert-InOrder e (sort_entries f es) (sort-InOrder es)
