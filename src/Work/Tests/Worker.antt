-- ===== src/Work/Tests/Worker.antt =====
-- Runs of the worker over a translation on the metered API.
use reading_wiki.Prelude.{
  Bool, true, ◌≡◌, refl, String, Option, none, some, [], ◌∷◌, subst, first_match, put_first,
}
use reading_wiki.Errors.{Error, raise, pure, value_error}
use reading_wiki.Identity.Quota.Service.{transaction_refund}
use reading_wiki.Identity.Quota.Kinds.{parse_kind}
use reading_wiki.Work.Job.{Job, Status, Backend}
use reading_wiki.Work.Store.{Db, update_returning, with_usage}
use reading_wiki.Work.Settlement.{finalize, finalize_job_quota, refund_to, settle}
use reading_wiki.Work.Transitions.{
  fail_or_retry, backoff_seconds, after_failure, mark_done_if_running, complete,
}
use reading_wiki.Work.Worker.{Handler, returned, process}
use reading_wiki.Work.Worker.Rows.{row, Closes}
use reading_wiki.Work.Worker.Released.{Behaves, process-Closes}
use reading_wiki.Work.Tests.Data.{running_job, queued_job, db}

abbrev claimed_job : Job
claimed_job = record running_job { execution_backend = Backend.api }

abbrev claimed_db : Db
claimed_db = record db { jobs = queued_job ∷ (claimed_job ∷ []) }

abbrev crashes : Handler
crashes job = raise value_error

abbrev finishes : Handler
finishes job = pure (returned (some "{\"done\": 9}"))

abbrev text_of : Error → String
text_of e = "ValueError: bad glossary"

abbrev status_of : Option Job → Option Status
status_of none = none
status_of (some j) = some j.status

retried :
    status_of (row 2 (process (λ k. some crashes) text_of claimed_job claimed_db).1)
    ≡ some Status.queued
unfolding process first_match fail_or_retry backoff_seconds update_returning after_failure put_first
retried = refl

finished :
    status_of (row 2 (process (λ k. some finishes) text_of claimed_job claimed_db).1)
    ≡ some Status.done
unfolding process first_match mark_done_if_running update_returning finalize finalize_job_quota
    put_first complete refund_to settle
finished = refl

-- A run that outlived its lease settles the quota of a job that was put back in the queue.
abbrev requeued_db : Db
requeued_db = record db { jobs = record claimed_job { status = Status.queued } ∷ [] }

abbrev status_and_settled : Option Job → Option (Status × Bool)
status_and_settled none = none
status_and_settled (some j) = some (j.status, j.quota_finalized)

settled_in_queue :
    status_and_settled (row 2 (process (λ k. some finishes) text_of claimed_job requeued_db).1)
    ≡ some (Status.queued, true)
unfolding process first_match mark_done_if_running update_returning finalize finalize_job_quota
    put_first complete refund_to settle with_usage transaction_refund parse_kind
settled_in_queue = refl

crashes-Behaves : Behaves crashes claimed_job claimed_db
unfolding raise first_match backoff_seconds
crashes-Behaves = record { delay = refl; told = refl; stopped = refl }

process-Closes_example : Closes 2 (process (λ k. some crashes) text_of claimed_job claimed_db)
unfolding first_match backoff_seconds
process-Closes_example =
    process-Closes (λ k. some crashes) text_of claimed_job claimed_db refl
      (λ h e. subst (λ g. Behaves g claimed_job claimed_db) (cc) crashes-Behaves)
