-- ===== src/Work/Preservation.antt =====
-- Every operation of the Work module keeps every stable property of the database.
pub mod Create
pub mod Leases
use reading_wiki.Prelude.{ℕ, ◌≡◌, String, Bool, true, ◌&&◌, Option, none, some, arith}
use reading_wiki.Work.Job.{Stage, Backend}
use reading_wiki.Work.Store.{Db}
use reading_wiki.Work.Settlement.{refund_to, finalize_job_quota, finalize, increment_quota_consumed}
use reading_wiki.Work.Transitions.{
  set_stage, set_progress, cancel_job, mark_canceled_if_running, mark_done_if_running,
  fail_or_retry,
}
use reading_wiki.Work.Waiting.{
  waits, wait_for_provider, release_wait, on_backend, waits_on, retry_one, retry_waiting,
}
use reading_wiki.Work.Fallback.{fallback_to_api}
use reading_wiki.Work.Follows.{
  settle-Respects, consume-Respects, stage-Respects, progress-Respects, cancel-Respects,
  stop-Respects, complete-Respects, failure-Respects, park-Respects, release-Respects,
  switch-Respects,
}
use reading_wiki.Work.Stable.{IsStable, Keeps, keeps_rules, Keeps-update, Keeps-usage}

pub and_left : (a b : Bool) → (a && b) ≡ true → a ≡ true
and_left a b h = ground arith

module _ {P : Db → Type 0} (stable : IsStable P) where
  pub refund_to-Keeps :
      (kind : Option String) (user : Option ℕ) (units : ℕ) → Keeps P (refund_to kind user units)
  unfolding refund_to
  refund_to-Keeps none user units = search keeps_rules
  refund_to-Keeps (some k) none units = search keeps_rules
  refund_to-Keeps (some k) (some u) units = search (keeps_rules, Keeps-usage stable)

  pub finalize_job_quota-Keeps :
      (job_id : ℕ) (success : Bool) → Keeps P (finalize_job_quota job_id success)
  unfolding finalize_job_quota
  finalize_job_quota-Keeps job_id success =
      search (keeps_rules, Keeps-update stable, settle-Respects, refund_to-Keeps)

  pub finalize-Keeps : (job_id : ℕ) (success : Bool) → Keeps P (finalize job_id success)
  unfolding finalize
  finalize-Keeps job_id success = search (keeps_rules, finalize_job_quota-Keeps)

  pub increment-Keeps : (job_id units : ℕ) → Keeps P (increment_quota_consumed job_id units)
  unfolding increment_quota_consumed
  increment-Keeps job_id units = search (keeps_rules, Keeps-update stable, consume-Respects)

  pub set_stage-Keeps : (job_id : ℕ) (stage : Stage) → Keeps P (set_stage job_id stage)
  unfolding set_stage
  set_stage-Keeps job_id stage = search (keeps_rules, Keeps-update stable, stage-Respects)

  pub set_progress-Keeps :
      (job_id : ℕ) (progress : String) (stage : Option Stage)
      → Keeps P (set_progress job_id progress stage)
  unfolding set_progress
  set_progress-Keeps job_id progress stage =
      search (keeps_rules, Keeps-update stable, progress-Respects)

  pub cancel-Keeps : (job_id : ℕ) → Keeps P (cancel_job job_id)
  unfolding cancel_job
  cancel-Keeps job_id = search (keeps_rules, Keeps-update stable, cancel-Respects, finalize-Keeps)

  pub mark_canceled-Keeps : (job_id : ℕ) → Keeps P (mark_canceled_if_running job_id)
  unfolding mark_canceled_if_running
  mark_canceled-Keeps job_id =
      search (keeps_rules, Keeps-update stable, stop-Respects, finalize-Keeps)

  pub mark_done-Keeps :
      (job_id : ℕ) (progress : Option String) → Keeps P (mark_done_if_running job_id progress)
  unfolding mark_done_if_running
  mark_done-Keeps job_id progress = search (keeps_rules, Keeps-update stable, complete-Respects)

  pub fail_or_retry-Keeps : (job_id : ℕ) (error : String) → Keeps P (fail_or_retry job_id error)
  unfolding fail_or_retry
  fail_or_retry-Keeps job_id error =
      search (keeps_rules, Keeps-update stable, failure-Respects, finalize-Keeps) depth 8

  pub wait-Keeps :
      (job_id : ℕ) (error : String) (minutes : ℕ) → Keeps P (wait_for_provider job_id error minutes)
  unfolding wait_for_provider
  wait-Keeps job_id error minutes = search (keeps_rules, Keeps-update stable, park-Respects)

  pub fallback-Keeps :
      (b : Backend) (job_id : ℕ) (model : String) (attempts : ℕ) (error : String)
      → Keeps P (fallback_to_api b job_id model attempts error)
  unfolding fallback_to_api
  fallback-Keeps b job_id model attempts error =
      search (keeps_rules, Keeps-update stable, switch-Respects)

  retry_one-Keeps : (job_id : ℕ) → Keeps P (retry_one job_id)
  unfolding retry_one
  retry_one-Keeps job_id = search (keeps_rules, Keeps-update stable, release-Respects)

  pub retry_waiting-Keeps :
      (job_id : Option ℕ) (backend : Option Backend) → Keeps P (retry_waiting job_id backend)
  unfolding retry_waiting
  retry_waiting-Keeps none backend = record {
    at = λ s h.
        stable.rows s (waits_on backend) (release_wait s.now)
          (λ j hit. release-Respects s.now j (and_left (waits j) (on_backend backend j) hit)) h;
  }
  retry_waiting-Keeps (some job_id) backend = record { at = (retry_one-Keeps job_id).at }
