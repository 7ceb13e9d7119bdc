-- ===== src/Work/History.antt =====
-- One job over time: what a row keeps through every sequence of operations.
use reading_wiki.Prelude.{
  ℕ, ◌≡◌, subst, ◌∙◌, Bool, true, some, List, [], ◌∷◌, first_match-map_where, first_match-append,
  map_where, arith, ◌==◌, ==_iff, Bool-cases, inl, inr,
}
use reading_wiki.Work.Job.{Job, has_id, is_terminal}
use reading_wiki.Work.Store.{Db, find, put}
use reading_wiki.Work.Create.{insert_job}
use reading_wiki.Work.Follows.{Follows}
use reading_wiki.Work.Ids.{find-put_self, find-put_ne}
use reading_wiki.Work.Stable.{IsStable, IsNew}
use reading_wiki.Work.Consistency.{IsConsistent, IsConsistent-IsStable}
use reading_wiki.Work.Operations.{Operation, run, run-keeps}

-- `j'` is a later state of the row `j`.
pub record Lasts (j j' : Job) : Type 0 where
  pub id : j'.id ≡ j.id
  pub kind : j'.kind ≡ j.kind
  pub user : j'.user_id ≡ j.user_id
  pub reserved : j'.quota_reserved ≡ j.quota_reserved
  pub absorbed : is_terminal j.status ≡ true → j'.status ≡ j.status
  pub settled : j.quota_finalized ≡ true → j'.quota_finalized ≡ true
  pub frozen : j.quota_finalized ≡ true → j'.quota_consumed ≡ j.quota_consumed

Lasts-refl : (j : Job) → Lasts j j
Lasts-refl j = ground arith

Lasts-Follows : (j k l : Job) → Lasts j k → Follows k l → Lasts j l
Lasts-Follows j k l a f = ground arith

pub record Since (i : ℕ) (j : Job) (s : Db) : Type 0 where
  pub consistent : IsConsistent s
  pub row : Job
  pub found : find i s.jobs ≡ some row
  pub lasts : Lasts j row

module _ (i : ℕ) (j₀ : Job) where
  row_is_found :
      (s : Db) (j : Job) (h : Since i j₀ s)
      → find j.id s.jobs ≡ some j
      → (j.id == i) ≡ true
      → h.row ≡ j
  row_is_found s j h found same =
      let at_i : find i s.jobs ≡ some j =
        subst (λ k. find k s.jobs ≡ some j) ((==_iff j.id i).0 same) found in
      cc (h.found, at_i)

  keeps_id :
      (s : Db) (p : Job → Bool) (f : Job → Job)
      → ((j : Job) → p j ≡ true → Follows j (f j))
      → (x : Job) → p x ≡ true
      → has_id i (f x) ≡ has_id i x
  keeps_id s p f follows x hit = rw (follows x hit).id

  row-Since :
      (s : Db) (j j' : Job)
      → find j.id s.jobs ≡ some j
      → Follows j j'
      → Since i j₀ s
      → Since i j₀ (record s { jobs = put j'.id j' s.jobs })
  row-Since s j j' found f h = elim (Bool-cases (j.id == i)) [
    | inl same ↦ record {
      consistent = IsConsistent-IsStable.row s j j' found f h.consistent;
      row = j';
      found =
          subst (λ k. find k (put j'.id j' s.jobs) ≡ some j') ((==_iff j.id i).0 same)
            (find-put_self j j' s.jobs f.id found);
      lasts = Lasts-Follows j₀ j j' (subst (Lasts j₀) (row_is_found s j h found same) h.lasts) f;
    }
    | inr other ↦ record {
      consistent = IsConsistent-IsStable.row s j j' found f h.consistent;
      row = h.row;
      found = find-put_ne j j' s.jobs f.id i other ∙ h.found;
      lasts = h.lasts;
    }
  ]

  rows-Since :
      (s : Db) (p : Job → Bool) (f : Job → Job)
      → ((j : Job) → p j ≡ true → Follows j (f j))
      → Since i j₀ s
      → Since i j₀ (record s { jobs = map_where p f s.jobs })
  rows-Since s p f follows h = elim (Bool-cases (p h.row)) [
    | inl hit ↦ record {
      consistent = IsConsistent-IsStable.rows s p f follows h.consistent;
      row = f h.row;
      found =
          first_match-map_where (has_id i) p f s.jobs (keeps_id s p f follows) ∙ rw (h.found, hit);
      lasts = Lasts-Follows j₀ h.row (f h.row) h.lasts (follows h.row hit);
    }
    | inr miss ↦ record {
      consistent = IsConsistent-IsStable.rows s p f follows h.consistent;
      row = h.row;
      found =
          first_match-map_where (has_id i) p f s.jobs (keeps_id s p f follows) ∙ rw (h.found, miss);
      lasts = h.lasts;
    }
  ]

  insert-Since : (s : Db) (j : Job) → IsNew s j → Since i j₀ s → Since i j₀ (insert_job j s)
  insert-Since s j new h = record {
    consistent = IsConsistent-IsStable.insert s j new h.consistent;
    row = h.row;
    found = rw (first_match-append (has_id i) s.jobs (j ∷ [])) (rw h.found);
    lasts = h.lasts;
  }

  pub Since-IsStable : IsStable (Since i j₀)
  Since-IsStable = record {
    row = row-Since;
    rows = rows-Since;
    insert = insert-Since;
    usage = λ s u h. record {
      consistent = IsConsistent-IsStable.usage s u h.consistent;
      row = h.row;
      found = h.found;
      lasts = h.lasts;
    };
    time = λ s n h. record {
      consistent = IsConsistent-IsStable.time s n h.consistent;
      row = h.row;
      found = h.found;
      lasts = h.lasts;
    };
    distinct = λ s h. h.consistent.distinct;
  }

-- A row is never lost: through every sequence of operations it keeps its id, kind, requester and
-- reservation; a job that is done, failed or canceled keeps that status; and once its quota is
-- settled it stays settled, with the units consumed that were settled.
pub run-Since :
    (os : List Operation) (s : Db) (j : Job)
    → IsConsistent s
    → find j.id s.jobs ≡ some j
    → Since j.id j (run os s)
run-Since os s j h found =
    run-keeps (Since-IsStable j.id j) os s
      (record { consistent = h; row = j; found = found; lasts = Lasts-refl j })
