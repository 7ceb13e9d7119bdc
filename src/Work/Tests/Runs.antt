-- ===== src/Work/Tests/Runs.antt =====
-- Sequences of operations, and settlements.
use reading_wiki.Prelude.{
  ℕ, ◌-◌, ◌≤◌, ◌≡◌, refl, subst, str_eq, String, true, false, none, some, List, [], ◌∷◌, arith,
  first_match, count_where, if◌then◌else◌, eq_iff,
}
use reading_wiki.Errors.{ok}
use reading_wiki.Identity.Quota.Kinds.{QuotaKind, translated_chapters, parse_kind}
use reading_wiki.Identity.Quota.Table.{get_usage}
use reading_wiki.Identity.Quota.Cells.{same_cell}
use reading_wiki.Work.Job.{Kind, Backend}
use reading_wiki.Work.Store.{find, put}
use reading_wiki.Work.Settlement.{settled_units, finalize}
use reading_wiki.Work.Create.{is_duplicate}
use reading_wiki.Work.Ids.{ids}
use reading_wiki.Work.Consistency.{IsConsistent}
use reading_wiki.Work.Operations.{
  Operation, create, claim, fail, elapse, maintain, cancel, complete, run, run-IsConsistent,
}
use reading_wiki.Work.History.{Since, run-Since}
use reading_wiki.Work.Refunds.{finalize-refunds}
use reading_wiki.Work.Once.{finalize-once}
use reading_wiki.Work.Tests.Data.{running_job, finished_job, db, submission}

keys_differ : (key : String) → str_eq "translate:3" key ≡ true → str_eq "translate:5" key ≡ false
keys_differ key e =
    subst (λ t. str_eq "translate:5" t ≡ false) ((eq_iff "translate:3" key).0 e) refl

one_of_key : (k : Kind) (key : String) → count_where (is_duplicate k key) db.jobs ≤ 1
unfolding count_where
one_of_key k key = ground (arith, keys_differ key)

pub db-IsConsistent : IsConsistent db
unfolding ids
db-IsConsistent = record {
  distinct = ground arith;
  below = ground arith;
  sound = ground arith;
  deduplicated = one_of_key;
}

abbrev script : List Operation
script =
    create 3 "translate" submission
    ∷ claim Backend.api "api-1" none
    ∷ fail 1 "boom"
    ∷ elapse 600
    ∷ maintain 180
    ∷ claim Backend.api "api-1" none
    ∷ complete 1 none
    ∷ cancel 2
    ∷ []

run-IsConsistent_example : IsConsistent (run script db)
run-IsConsistent_example = run-IsConsistent script db db-IsConsistent

found_third : find 3 db.jobs ≡ some finished_job
unfolding first_match
found_third = refl

found_second : find 2 db.jobs ≡ some running_job
unfolding first_match
found_second = refl

run-Since_example : Since 3 finished_job (run script db)
run-Since_example = run-Since script db finished_job db-IsConsistent found_third

-- The first settlement succeeds, time passes, and the job ends; then it is settled again.
settles_first : (finalize 2 true db).0 ≡ ok tt
unfolding parse_kind
settles_first =
    (finalize-refunds 2 true db running_job found_second "translated_chapters" translated_chapters 4
      refl refl refl refl).0

finalize-once_example :
    finalize 2 false (run (elapse 5 ∷ complete 2 none ∷ []) (finalize 2 true db).1)
    ≡ (ok tt, run (elapse 5 ∷ complete 2 none ∷ []) (finalize 2 true db).1)
finalize-once_example =
    finalize-once 2 true false (elapse 5 ∷ complete 2 none ∷ []) db running_job db-IsConsistent
      found_second settles_first

finalize-refunds_example :
    let (r, s') = finalize 2 true db in
    (r ≡ ok tt)
    × (s'.jobs
        ≡ put 2
            (record running_job {
              quota_finalized = true;
              quota_consumed = settled_units true running_job;
              updated_at = 200;
            })
            db.jobs)
    × ((user period : ℕ) (q : QuotaKind)
        → get_usage user period s'.usage q ≡ (
            if same_cell 4 7 translated_chapters user period q
            then get_usage user period db.usage q - (9 - settled_units true running_job)
            else get_usage user period db.usage q))
unfolding parse_kind
finalize-refunds_example =
    finalize-refunds 2 true db running_job found_second "translated_chapters" translated_chapters 4
      refl refl refl refl
