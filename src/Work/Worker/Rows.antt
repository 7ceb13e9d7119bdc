-- ===== src/Work/Worker/Rows.antt =====
-- The row of a job after an UPDATE of it and after a settlement.
use reading_wiki.Prelude.{
  ℕ, ◌≡◌, refl, ◌∙◌, sym, subst, String, Bool, true, false, not, ◌&&◌, ◌||◌, Option, none, some,
  arith, if◌then◌else◌, Bool-cases, Option-cases, inl, inr, first_match_holds, ==_iff,
}
use reading_wiki.Errors.{Result, ok, err, ◌>>=◌}
use reading_wiki.Work.Job.{Job, is_queued, is_running, has_id}
use reading_wiki.Work.Store.{Db, find, put, updated, written, update_returning, with_usage}
use reading_wiki.Work.Settlement.{settle, refund_to, finalize, finalize_job_quota}
use reading_wiki.Work.Ids.{find-put_self}
use reading_wiki.Work.Refunds.{finalize-settled, after_refund, finalize-unsettled}

abbrev pub row : ℕ → Db → Option Job
row i s = find i s.jobs

-- There is no such job, or it does not run.
abbrev pub idle : Option Job → Bool
idle none = true
idle (some j) = not (is_running j.status)

-- It is free for another attempt, or at rest with its quota settled.
abbrev pub released : Option Job → Bool
released none = true
released (some j) = not (is_running j.status) && (is_queued j.status || j.quota_finalized)

abbrev pub failed : {A : Type 0} → Result A → Bool
failed (ok a) = false
failed (err e) = true

-- The job does not run, and is released unless the action raised.
abbrev pub Closes : ℕ → Result (Unit {0}) × Db → Type 0
Closes i r = (idle (row i r.1) ≡ true) × ((failed r.0 || released (row i r.1)) ≡ true)

abbrev pub rewritten : (Job → Bool) → (Job → Job) → Option Job → Option Job
rewritten guard set none = none
rewritten guard set (some j) = some (if guard j then set j else j)

-- The row after an UPDATE that keeps the id.
pub find-written :
    (i : ℕ) (guard : Job → Bool) (set : Job → Job) (s : Db) (o : Option Job)
    → ((j : Job) → (set j).id ≡ j.id)
    → row i s ≡ o
    → find i (written i (updated o guard set) s.jobs) ≡ rewritten guard set o
find-written i guard set s none keeps e = e
find-written i guard set s (some j) keeps e = elim (Bool-cases (guard j)) [
  | inr f ↦ rw f e
  | inl f ↦
      let same : j.id ≡ i = (==_iff j.id i).0 (first_match_holds (has_id i) s.jobs {x = j} e) in
      let found : find j.id s.jobs ≡ some j = subst (λ k. find k s.jobs ≡ some j) (sym same) e in
      let after : find j.id (put (set j).id (set j) s.jobs) ≡ some (set j) =
        find-put_self j (set j) s.jobs (keeps j) found in
      rw f (
        subst (λ k. find i (put k (set j) s.jobs) ≡ some (set j)) (keeps j ∙ same)
          (subst (λ k. find k (put (set j).id (set j) s.jobs) ≡ some (set j)) same after))
]

refund_to-jobs :
    (k : Option String) (u : Option ℕ) (units : ℕ) (s : Db)
    → (refund_to k u units s).1.jobs ≡ s.jobs
unfolding refund_to with_usage ◌>>=◌
refund_to-jobs none u units s = refl
refund_to-jobs (some k) none units s = refl
refund_to-jobs (some k) (some u) units s = ground arith

settle-id : (success : Bool) (now : ℕ) (j : Job) → (settle success now j).id ≡ j.id
unfolding settle
settle-id success now j = refl

settle-released :
    (success : Bool) (now : ℕ) (j : Job)
    → idle (some j) ≡ true
    → (idle (some (settle success now j)) ≡ true) × (released (some (settle success now j)) ≡ true)
unfolding settle
settle-released success now j h = ground arith

after_refund-Closes :
    (i : ℕ) (s : Db) (j' : Job) (r : Result ℕ × Db)
    → idle (row i s) ≡ true
    → row i r.1 ≡ some j'
    → (idle (some j') ≡ true) × (released (some j') ≡ true)
    → Closes i (after_refund s r)
after_refund-Closes i s j' (err e, s') h found rests = (h, refl)
after_refund-Closes i s j' (ok n, s') h found rests = rw found rests

pub marked-row :
    (i : ℕ) (success : Bool) (s : Db) (j : Job) (k : Option String) (u : Option ℕ) (units : ℕ)
    → row i s ≡ some j
    → row i (refund_to k u units (record s { jobs = put i (settle success s.now j) s.jobs })).1
      ≡ some (settle success s.now j)
marked-row i success s j k u units found =
    rw (refund_to-jobs k u units (record s { jobs = put i (settle success s.now j) s.jobs }))
      (find-written i (λ _. true) (settle success s.now) s (some j) (settle-id success s.now) found)

finalize_row-Closes :
    (i : ℕ) (success : Bool) (s : Db) (j : Job)
    → row i s ≡ some j
    → idle (some j) ≡ true
    → Closes i (finalize i success s)
finalize_row-Closes i success s j found h = elim (Bool-cases j.quota_finalized) [
  | inl done ↦ rw (finalize-settled i success s j found done) (rw found (ground arith))
  | inr open_row ↦ rw (finalize-unsettled i success s j found open_row) (
      after_refund-Closes i s (settle success s.now j) _ (rw found h)
        (marked-row i success s j j.quota_kind j.user_id _ found)
        (settle-released success s.now j h))
]

finalize-none :
    (i : ℕ) (success : Bool) (s : Db) → row i s ≡ none → finalize i success s ≡ (ok tt, s)
unfolding finalize finalize_job_quota update_returning ◌>>=◌
finalize-none i success s e = rw e refl

-- A settlement of a job that does not run.
pub finalize-Closes :
    (i : ℕ) (success : Bool) (s : Db) → idle (row i s) ≡ true → Closes i (finalize i success s)
finalize-Closes i success s h = elim (Option-cases (row i s)) [
  | inl e ↦ rw (finalize-none i success s e) (rw e (refl, refl))
  | inr (j, e) ↦ finalize_row-Closes i success s j e (rw e at h)
]
