-- ===== src/Work/Once.antt =====
-- A job's quota is settled once: `finalize` of work/adapters/outbound/postgres.py over time.
use reading_wiki.Prelude.{
  ℕ, ◌≡◌, refl, sym, subst, Bool, true, some, List, arith, Bool-cases, inl, inr, first_match_holds,
  ==_iff,
}
use reading_wiki.Errors.{Result, ok, err}
use reading_wiki.Work.Job.{Job, has_id}
use reading_wiki.Work.Store.{Db, find}
use reading_wiki.Work.Settlement.{settle, finalize}
use reading_wiki.Work.Preservation.{finalize-Keeps}
use reading_wiki.Work.Consistency.{IsConsistent, IsConsistent-IsStable}
use reading_wiki.Work.Operations.{Operation, run}
use reading_wiki.Work.History.{run-Since}
use reading_wiki.Work.Refunds.{finalize-settled, after_refund, finalize-unsettled}
use reading_wiki.Work.Worker.Rows.{marked-row}

-- The row of the job is settled.
abbrev IsSettled : ℕ → Db → Type 0
IsSettled i s = (j : Job) × (find i s.jobs ≡ some j) × (j.quota_finalized ≡ true)

after_refund-IsSettled :
    (i : ℕ) (s : Db) (j : Job) (r : Result ℕ × Db)
    → find i r.1.jobs ≡ some j
    → j.quota_finalized ≡ true
    → (after_refund s r).0 ≡ ok tt
    → IsSettled i (after_refund s r).1
after_refund-IsSettled i s j (ok n, s') found done h = (j, found, done)
after_refund-IsSettled i s j (err e, s') found done h = ground arith

finalize-IsSettled :
    (i : ℕ) (success : Bool) (s : Db) (j : Job)
    → find i s.jobs ≡ some j
    → (finalize i success s).0 ≡ ok tt
    → IsSettled i (finalize i success s).1
unfolding settle
finalize-IsSettled i success s j found h = elim (Bool-cases j.quota_finalized) [
  | inl done ↦ rw (finalize-settled i success s j found done) (j, found, done)
  | inr open_row ↦
      let e = finalize-unsettled i success s j found open_row in
      rw e (
        after_refund-IsSettled i s (settle success s.now j) _
          (marked-row i success s j j.quota_kind j.user_id _ found) refl (rw e at h))
]

run-IsSettled :
    (os : List Operation) (i : ℕ) (s : Db) → IsConsistent s → IsSettled i s → IsSettled i (run os s)
run-IsSettled os i s h (j, found, done) =
    let same : j.id ≡ i = (==_iff j.id i).0 (first_match_holds (has_id i) s.jobs {x = j} found) in
    let since = run-Since os s j h (subst (λ k. find k s.jobs ≡ some j) (sym same) found) in
    (
      since.row,
      subst (λ k. find k (run os s).jobs ≡ some since.row) same since.found,
      since.lasts.settled done,
    )

-- Where the database is consistent and the job is there: once a settlement of the job has returned,
-- and whatever operations follow, a further settlement, as a success or as a failure, returns and
-- leaves every job and every quota as they are.
pub finalize-once :
    (i : ℕ) (success again : Bool) (os : List Operation) (s : Db) (j : Job)
    → IsConsistent s
    → find i s.jobs ≡ some j
    → (finalize i success s).0 ≡ ok tt
    → finalize i again (run os (finalize i success s).1) ≡ (ok tt, run os (finalize i success s).1)
finalize-once i success again os s j h found returned =
    let s' = (finalize i success s).1 in
    let (row, there, done) =
      run-IsSettled os i s' ((finalize-Keeps IsConsistent-IsStable i success).at s h)
        (finalize-IsSettled i success s j found returned) in
    finalize-settled i again (run os s') row there done
