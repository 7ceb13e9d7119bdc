-- ===== src/Codex/Bm25/Places.antt =====
-- The places of the chunks up to a ceiling.
use reading_wiki.Prelude.{
  ℕ, zero, suc, ◌≤◌, ◌≡◌, refl, sym, ap, subst, Bool, true, some, List, [], ◌∷◌, ◌++◌, leb, length,
  get_elem?, select, select-All, All-get_elem?, arith, Bool-cases, leb_iff, inl, inr,
}
use mathlib.Core.List.{append_assoc}
use reading_wiki.Codex.Bm25.{Chunk, eligible_from, eligible, at_places, chunk_at}

abbrev pub is_visible : ℕ → Chunk → Bool
is_visible ceiling c = leb c.chapter ceiling

abbrev pub visible : ℕ → List Chunk → List Chunk
visible ceiling = select (is_visible ceiling)

-- The places are those of the chunks.
abbrev pub Points : List Chunk → List ℕ → List Chunk → Type 0
Points corpus [] [] = Unit {0}
Points corpus [] (c ∷ cs) = 1 ≤ 0
Points corpus (i ∷ is) [] = 1 ≤ 0
Points corpus (i ∷ is) (c ∷ cs) = (get_elem? corpus i ≡ some c) × Points corpus is cs

get_elem?-middle :
    (before : List Chunk) (c : Chunk) (after : List Chunk)
    → get_elem? (before ++ (c ∷ after)) (length before) ≡ some c
get_elem?-middle [] c after = refl
get_elem?-middle (b ∷ before) c after = get_elem?-middle before c after

length-snoc : (before : List Chunk) (c : Chunk) → length (before ++ (c ∷ [])) ≡ suc (length before)
length-snoc [] c = refl
length-snoc (b ∷ before) c = omega (arith, length-snoc before c)

eligible_from-Points :
    (ceiling : ℕ) (before after : List Chunk)
    → Points (before ++ after) (eligible_from ceiling (length before) after) (visible ceiling after)
unfolding eligible_from select
eligible_from-Points ceiling before [] = tt
eligible_from-Points ceiling before (c ∷ after) =
    let rest =
      subst
        (λ n.
          Points (before ++ (c ∷ after)) (eligible_from ceiling n after) (visible ceiling after))
        (length-snoc before c)
        (subst
          (λ cs.
            Points cs (eligible_from ceiling (length (before ++ (c ∷ []))) after)
              (visible ceiling after))
          (append_assoc before (c ∷ []) after)
          (eligible_from-Points ceiling (before ++ (c ∷ [])) after)) in
    elim (Bool-cases (leb c.chapter ceiling)) [
      | inl e ↦ rw e (get_elem?-middle before c after, rest)
      | inr e ↦ rw e rest
    ]

pub eligible-Points :
    (ceiling : ℕ) (corpus : List Chunk)
    → Points corpus (eligible ceiling corpus) (visible ceiling corpus)
eligible-Points ceiling corpus = eligible_from-Points ceiling [] corpus

pub at_places-Points :
    (corpus : List Chunk) (is : List ℕ) (cs : List Chunk)
    → Points corpus is cs
    → at_places corpus is ≡ cs
unfolding at_places
at_places-Points corpus [] [] p = refl
at_places-Points corpus [] (c ∷ cs) p = absurd (omega arith)
at_places-Points corpus (i ∷ is) [] p = absurd (omega arith)
at_places-Points corpus (i ∷ is) (c ∷ cs) p =
    rw (p.0, at_places) (ap (λ xs. c ∷ xs) (at_places-Points corpus is cs p.1))

pub length-Points :
    (corpus : List Chunk) (is : List ℕ) (cs : List Chunk)
    → Points corpus is cs
    → length is ≡ length cs
length-Points corpus [] [] p = refl
length-Points corpus [] (c ∷ cs) p = absurd (omega arith)
length-Points corpus (i ∷ is) [] p = absurd (omega arith)
length-Points corpus (i ∷ is) (c ∷ cs) p = omega (arith, length-Points corpus is cs p.1)

-- Of two ceilings the lower one sees no more, and as many only if it sees the same.
length-eligible_from :
    (lo hi n : ℕ) (corpus : List Chunk)
    → lo ≤ hi
    → length (eligible_from lo n corpus) ≤ length (eligible_from hi n corpus)
unfolding eligible_from
length-eligible_from lo hi n [] h = omega arith
length-eligible_from lo hi n (c ∷ cs) h = ground (arith, length-eligible_from lo hi (suc n) cs)

eligible_from_eq :
    (lo hi n : ℕ) (corpus : List Chunk)
    → lo ≤ hi
    → length (eligible_from lo n corpus) ≡ length (eligible_from hi n corpus)
    → eligible_from lo n corpus ≡ eligible_from hi n corpus
unfolding eligible_from
eligible_from_eq lo hi n [] h e = refl
eligible_from_eq lo hi n (c ∷ cs) h e =
    ground (arith, length-eligible_from lo hi (suc n) cs h, eligible_from_eq lo hi (suc n) cs h)

pub eligible_eq :
    (a b : ℕ) (corpus : List Chunk)
    → length (eligible a corpus) ≡ length (eligible b corpus)
    → eligible a corpus ≡ eligible b corpus
eligible_eq a b corpus e = elim (Bool-cases (leb a b)) [
  | inl le ↦ eligible_from_eq a b 0 corpus ((leb_iff a b).0 le) e
  | inr gt ↦ sym (eligible_from_eq b a 0 corpus (ground (arith, gt)) (sym e))
]

length-visible :
    (ceiling : ℕ) (corpus : List Chunk) → length (visible ceiling corpus) ≤ length corpus
unfolding select
length-visible ceiling [] = omega arith
length-visible ceiling (c ∷ cs) = ground (arith, length-visible ceiling cs)

pub visible_all :
    (ceiling : ℕ) (corpus : List Chunk)
    → length (visible ceiling corpus) ≡ length corpus
    → visible ceiling corpus ≡ corpus
unfolding select
visible_all ceiling [] h = refl
visible_all ceiling (c ∷ cs) h = ground (arith, length-visible ceiling cs, visible_all ceiling cs)

pub get_elem?-Points :
    (corpus : List Chunk) (is : List ℕ) (cs : List Chunk) (i : ℕ)
    → Points corpus is cs
    → chunk_at corpus (get_elem? is i) ≡ get_elem? cs i
get_elem?-Points corpus [] [] i p = refl
get_elem?-Points corpus [] (c ∷ cs) i p = absurd (omega arith)
get_elem?-Points corpus (j ∷ is) [] i p = absurd (omega arith)
get_elem?-Points corpus (j ∷ is) (c ∷ cs) zero p = p.0
get_elem?-Points corpus (j ∷ is) (c ∷ cs) (suc i) p = get_elem?-Points corpus is cs i p.1

-- A chunk that is found among the visible ones is visible.
pub get_elem?-visible :
    (ceiling : ℕ) (corpus : List Chunk) (i : ℕ) {c : Chunk}
    → get_elem? (visible ceiling corpus) i ≡ some c
    → leb c.chapter ceiling ≡ true
get_elem?-visible ceiling corpus i {c} h =
    All-get_elem? (λ x. is_visible ceiling x ≡ true) (visible ceiling corpus) i {x = c}
      (select-All (is_visible ceiling) corpus) h
