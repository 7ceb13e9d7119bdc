-- ===== src/Reading/Ceiling.antt =====
-- The ceiling that a reader gets stays within the chapters, and within what is trusted.
use reading_wiki.Prelude.{
  ℕ, suc, ◌≤◌, ◌≡◌, refl, Bool, true, false, ◌||◌, Option, none, some, List, ◌∷◌, ◌==◌, min, max,
  length, arith, get_or,
}
use reading_wiki.Errors.{Result, ok}
use reading_wiki.Identity.Principal.{Principal}
use reading_wiki.Reading.Tables.{ReadingDb, ceiling_of, least, greatest, numbers}
use reading_wiki.Reading.Progress.{
  Float, nan, neg_inf, pos_inf, at, less, equal, EffectiveCeiling, allow, ceiling,
  effective_ceiling,
}

-- `a <= b`
abbrev pub at_most : Float → Float → Bool
at_most a b = less a b || equal a b

-- What the database trusts: nothing, where nobody is logged in.
abbrev pub trust : ℕ → Option Principal → ReadingDb → Option ℕ
trust i none s = none
trust i (some p) s = ceiling_of i p.user_id s

least-greatest : (n : ℕ) (ns : List ℕ) → get_or (least (n ∷ ns)) 0 ≤ get_or (greatest (n ∷ ns)) 0
unfolding least greatest
least-greatest n ns = ground arith

abbrev pub IsWithin : ℕ → ℕ → ℕ → EffectiveCeiling → Type 0
IsWithin low high trusted c =
    (at_most (at low) c.effective_ceiling ≡ true)
    × ((at_most c.effective_ceiling c.allowed_ceiling ≡ true)
        × ((at_most c.allowed_ceiling (at high) ≡ true)
            × (at_most c.allowed_ceiling (at (max low trusted)) ≡ true)))

allow_at :
    (low high t : ℕ) (progress : Option ℕ)
    → get_or progress low ≡ t
    → allow low high progress ≡ at (max low (min high t))
allow_at low high t progress e = rw e (ground arith)

ceiling-IsWithin :
    (count low high t : ℕ) (progress : Option ℕ) (requested : Option Float)
    → low ≤ high
    → get_or progress low ≡ t
    → IsWithin low high t (ceiling count low high progress requested)
ceiling-IsWithin count low high t progress none h e =
    rw (allow_at low high t progress e) (ground arith)
ceiling-IsWithin count low high t progress (some nan) h e =
    rw (allow_at low high t progress e) (ground arith)
ceiling-IsWithin count low high t progress (some neg_inf) h e =
    rw (allow_at low high t progress e) (ground arith)
ceiling-IsWithin count low high t progress (some pos_inf) h e =
    rw (allow_at low high t progress e) (ground arith)
ceiling-IsWithin count low high t progress (some (at r)) h e =
    rw (allow_at low high t progress e) (ground arith)

abbrev pub first_chapter : ℕ → ReadingDb → ℕ
first_chapter i s = get_or (least (numbers i s)) 0

abbrev pub last_chapter : ℕ → ReadingDb → ℕ
last_chapter i s = get_or (greatest (numbers i s)) 0

ordered :
    (i : ℕ) (s : ReadingDb) (n : ℕ) (ns : List ℕ)
    → numbers i s ≡ n ∷ ns
    → first_chapter i s ≤ last_chapter i s
ordered i s n ns chapters = rw chapters (least-greatest n ns)

not_zero : (n : ℕ) → suc n == 0 ≡ false
not_zero n = ground arith

module _ {N : Type 0} (readable : ℕ → Option Principal → Result N) (i : ℕ)
    (requested : Option Float) where
  runs_to :
      (p : Option Principal) (s : ReadingDb) {novel : N} (n : ℕ) (ns : List ℕ)
      → readable i p ≡ ok novel
      → numbers i s ≡ n ∷ ns
      → effective_ceiling readable i p requested s ≡ (
        ok (
            ceiling
              (length (numbers i s))
              (first_chapter i s)
              (last_chapter i s)
              (trust i p s)
              requested),
        s,
      )
  unfolding effective_ceiling
  runs_to none s n ns there chapters = rw (there, chapters, not_zero (length ns)) refl
  runs_to (some p) s n ns there chapters = rw (there, chapters, not_zero (length ns)) refl

-- A ceiling is given wherever the novel may be read and has chapters, and nothing is written.
module _ {N : Type 0} (readable : ℕ → Option Principal → Result N) (i : ℕ) (p : Option Principal)
    (requested : Option Float) where
  abbrev pub Given : ReadingDb → Option ℕ → Type 0
  Given s trusted =
      (c : EffectiveCeiling) × ((effective_ceiling readable i p requested s ≡ (ok c, s))
        × IsWithin (first_chapter i s) (last_chapter i s) (get_or trusted (first_chapter i s)) c)

  pub effective_ceiling-Given :
      (s : ReadingDb) {novel : N} (n : ℕ) (ns : List ℕ)
      → readable i p ≡ ok novel
      → numbers i s ≡ n ∷ ns
      → Given s (trust i p s)
  effective_ceiling-Given s n ns there chapters = (
    ceiling (length (numbers i s)) (first_chapter i s) (last_chapter i s) (trust i p s) requested,
    (
      runs_to readable i requested p s n ns there chapters,
      ceiling-IsWithin (length (numbers i s)) (first_chapter i s) (last_chapter i s)
          (get_or (trust i p s) (first_chapter i s)) (trust i p s) requested
          (ordered i s n ns chapters) refl,
    ),
  )
