-- ===== src/Work/Preservation/Create.antt =====
-- Inserting a job keeps every stable property: the row is new and no active job has its key.
use reading_wiki.Prelude.{
  ℕ, ◌≡◌, refl, String, Option, none, some, List, arith, oldest_where-none, count_where,
  count-All-false, subst,
}
use reading_wiki.Errors.{Result, ok, err}
use reading_wiki.Work.Job.{Job, Kind}
use reading_wiki.Work.Store.{Db}
use reading_wiki.Work.Create.{
  Submission, clean_key, is_duplicate, row_created_at, find_duplicate, check_subscription, new_job,
  admit, submit, create_job,
}
use reading_wiki.Work.Stable.{IsStable, IsNew, Keeps, keeps_rules}

pub no_duplicate_count :
    (k : Kind) (key : String) (jobs : List Job)
    → find_duplicate k (some key) jobs ≡ none
    → count_where (is_duplicate k key) jobs ≡ 0
unfolding find_duplicate
no_duplicate_count k key jobs h =
    count-All-false (is_duplicate k key) jobs
      (oldest_where-none (is_duplicate k key) row_created_at jobs h)

pub new_job-IsNew :
    (k : Kind) (r : Submission) (key : Option String) (attempts : ℕ) (s : Db)
    → find_duplicate k key s.jobs ≡ none
    → IsNew s (new_job k r key attempts s.next_id s.now)
unfolding new_job
new_job-IsNew k r key attempts s h = record {
  id = refl;
  queued = refl;
  sound = ground arith;
  unsettled = refl;
  no_duplicate = λ text e.
      no_duplicate_count k text s.jobs (subst (λ o. find_duplicate k o s.jobs ≡ none) e h);
}

module _ {P : Db → Type 0} (stable : IsStable P) where
  admit_at :
      (attempts : ℕ) (k : Kind) (r : Submission) (s : Db) (o : Option Job) (c : Result (Unit {0}))
      → find_duplicate k (clean_key r.idempotency_key) s.jobs ≡ o
      → P s
      → P (admit attempts k r o c s).1
  unfolding admit
  admit_at attempts k r s (some j) c e h = h
  admit_at attempts k r s none (err x) e h = h
  admit_at attempts k r s none (ok granted) e h =
      let key = clean_key r.idempotency_key in
      stable.insert s (new_job k r key attempts s.next_id s.now)
        (new_job-IsNew k r key attempts s e) h

  pub submit-Keeps : (attempts : ℕ) (k : Kind) (r : Submission) → Keeps P (submit attempts k r)
  unfolding submit
  submit-Keeps attempts k r = record {
    at = λ s h.
        admit_at attempts k r s (find_duplicate k (clean_key r.idempotency_key) s.jobs)
          (check_subscription k r s.jobs) refl h;
  }

  pub create-Keeps :
      (attempts : ℕ) (kind : String) (r : Submission) → Keeps P (create_job attempts kind r)
  unfolding create_job
  create-Keeps attempts kind r = search (keeps_rules, submit-Keeps)
