-- ===== src/Work/Ids.antt =====
-- The primary key of the `jobs` table.
use reading_wiki.Prelude.{
  ℕ, ◌<◌, ◌≡◌, refl, sym, ap, ◌∙◌, Bool, true, false, Option, none, some, List, [], ◌∷◌, ◌++◌, All,
  first_match, put_first, first_match-put, first_match-put_ne, is_some, subst, map_where,
  if◌then◌else◌, ◌==◌, arith, All-append, All-oldest_where, oldest_where,
}
use reading_wiki.Work.Job.{Job, has_id}
use reading_wiki.Work.Store.{find, put}

unfoldable pub ids : List Job → List ℕ
ids [] = []
ids (j ∷ js) = j.id ∷ ids js

abbrev pub Distinct : List ℕ → Type 0
Distinct [] = Unit
Distinct (x ∷ xs) = All (λ y. (x == y) ≡ false) xs × Distinct xs

pub ids-put : (j : Job) (jobs : List Job) → ids (put j.id j jobs) ≡ ids jobs
unfolding ids put_first
ids-put j [] = refl
ids-put j (x ∷ xs) = ground (arith, ids-put j xs)

pub ids-map_where :
    (p : Job → Bool) (f : Job → Job) (jobs : List Job)
    → ((j : Job) → p j ≡ true → (f j).id ≡ j.id)
    → ids (map_where p f jobs) ≡ ids jobs
unfolding ids map_where
ids-map_where p f [] same = refl
ids-map_where p f (x ∷ xs) same = ground (arith, same x, ids-map_where p f xs same)

pub ids-append : (j : Job) (jobs : List Job) → ids (jobs ++ j ∷ []) ≡ ids jobs ++ j.id ∷ []
unfolding ids
ids-append j [] = refl
ids-append j (x ∷ xs) = ap (λ l. x.id ∷ l) (ids-append j xs)

pub Distinct-append :
    (n : ℕ) (xs : List ℕ) → All (λ x. x < n) xs → Distinct xs → Distinct (xs ++ n ∷ [])
Distinct-append n [] below d = (tt, tt)
Distinct-append n (x ∷ xs) below d = (
  All-append (λ y. (x == y) ≡ false) xs (n ∷ []) d.0 (ground arith, tt),
  Distinct-append n xs below.1 d.1,
)

abbrev IsFound : List Job → Job → Type 0
IsFound jobs j = find j.id jobs ≡ some j

IsFound-below :
    (x : Job) (xs ys : List Job)
    → All (λ i. (x.id == i) ≡ false) (ids ys)
    → All (IsFound xs) ys
    → All (IsFound (x ∷ xs)) ys
unfolding ids first_match
IsFound-below x xs [] apart all = tt
IsFound-below x xs (y ∷ ys) apart all = (ground arith, IsFound-below x xs ys apart.1 all.1)

-- Each row is the one that its id finds.
pub All-IsFound : (jobs : List Job) → Distinct (ids jobs) → All (IsFound jobs) jobs
unfolding ids first_match
All-IsFound [] d = tt
All-IsFound (x ∷ xs) d = (ground arith, IsFound-below x xs xs d.0 (All-IsFound xs d.1))

-- A row chosen by age is the row of its id.
pub find-oldest :
    (p : Job → Bool) (key : Job → ℕ) (jobs : List Job) (j : Job)
    → Distinct (ids jobs)
    → oldest_where p key jobs ≡ some j
    → find j.id jobs ≡ some j
find-oldest p key jobs j d h = All-oldest_where p key (IsFound jobs) jobs j (All-IsFound jobs d) h

==-refl : (n : ℕ) → (n == n) ≡ true
==-refl n = ground arith

is_some_then :
    {o : Option Job} {j : Job} (v : Job)
    → o ≡ some j
    → (if is_some o then some v else none) ≡ some v
is_some_then v e = rw e

-- Look-ups after the row of `j` became `j'`.
module _ (j j' : Job) (jobs : List Job) (same_id : j'.id ≡ j.id) where
  pub find-put_self : find j.id jobs ≡ some j → find j.id (put j'.id j' jobs) ≡ some j'
  find-put_self found =
      subst (λ k. find k (put j'.id j' jobs) ≡ some j') same_id
        (first_match-put (has_id j'.id) j' jobs (==-refl j'.id)
          ∙ is_some_then j' (subst (λ k. find k jobs ≡ some j) (sym same_id) found))

  pub find-put_ne : (i : ℕ) → (j.id == i) ≡ false → find i (put j'.id j' jobs) ≡ find i jobs
  find-put_ne i other =
      first_match-put_ne (has_id j'.id) (has_id i) j' jobs (λ x e. ground arith) (ground arith)
