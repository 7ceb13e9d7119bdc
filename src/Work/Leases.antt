-- ===== src/Work/Leases.antt =====
-- Leases of running jobs: `PostgresWorkerStateRepository` (work/adapters/outbound/worker_state.py),
-- `WorkerStateService` (work/application/worker_state.py) and `_recover_stale_leases` with the
-- maintenance round of work/adapters/inbound/worker.py. `lease` is the timeout in seconds.
use reading_wiki.Prelude.{
  ℕ, ◌+◌, String, Bool, true, false, ◌&&◌, Option, none, some, List, [], ◌∷◌, ltb, leb,
  if◌then◌else◌, is_some, truthy, opt_eq, map_where, count_where, select, ◌==◌,
}
use reading_wiki.Errors.{gets, ok, pure, modify, when◌then◌else◌, ◌>>=◌, ◌>>◌}
use reading_wiki.Work.Job.{
  Job, Status, Stage, Backend, is_active, is_running, is_waiting, same_backend,
}
use reading_wiki.Work.Store.{Work, update_returning}
use reading_wiki.Work.Settlement.{finalize}
use reading_wiki.Work.Transitions.{exhausted}

-- ── the repository ──

abbrev pub holds_claim : String → Job → Bool
holds_claim token j = opt_eq j.claim_token token && is_running j.status

unfoldable pub touch_lease : ℕ → Job → Job
touch_lease now j = record j { claimed_at = some now }

-- A missing or empty token renews nothing.
unfoldable pub renew_lease : ℕ → Option String → Work (Unit {0})
renew_lease job_id none = pure tt
renew_lease job_id (some token) =
    when truthy token
    then (do row ← update_returning job_id (holds_claim token) touch_lease; pure tt)
    else pure tt

-- `claimed_at IS NULL OR claimed_at < now() - lease`
abbrev pub expired : ℕ → ℕ → Option ℕ → Bool
expired lease now none = true
expired lease now (some t) = ltb (t + lease) now

abbrev pub is_stale : ℕ → ℕ → Job → Bool
is_stale lease now j = is_running j.status && expired lease now j.claimed_at

abbrev pub wants_cancel : Job → Bool
wants_cancel j = is_some j.cancel_requested_at

abbrev pub is_stale_canceled : ℕ → ℕ → Job → Bool
is_stale_canceled lease now j = is_stale lease now j && wants_cancel j

unfoldable pub cancel_lost : ℕ → Job → Job
cancel_lost now j = record j {
  status = Status.canceled;
  stage = Stage.canceled_worker_lost;
  claim_token = none;
  claimed_at = none;
  updated_at = now;
}

abbrev pub or_worker_lost : Option String → Option String
or_worker_lost none = some "Worker lost the job before it finished (lease expired)."
or_worker_lost (some e) = some e

unfoldable pub fail_lost : ℕ → Job → Job
fail_lost now j = record j {
  status = Status.failed;
  stage = Stage.failed_worker_lost;
  error = or_worker_lost j.error;
  claim_token = none;
  claimed_at = none;
  updated_at = now;
}

unfoldable pub requeue_lost : ℕ → Job → Job
requeue_lost now j = record j {
  status = Status.queued;
  stage = Stage.requeued;
  claim_token = none;
  claimed_at = none;
  updated_at = now;
}

module _ (lease : ℕ) where
  -- the rows as they were read, before any of them is recovered
  unfoldable pub stale_leases : Work (List Job)
  stale_leases s = (ok (select (is_stale lease s.now) s.jobs), s)

  unfoldable pub cancel_stale_lease : ℕ → Work Bool
  cancel_stale_lease job_id = do
    now ← gets (λ s. s.now)
    row ← update_returning job_id (is_stale_canceled lease now) cancel_lost
    pure (is_some row)

  unfoldable pub fail_stale_lease : ℕ → Work Bool
  fail_stale_lease job_id = do
    now ← gets (λ s. s.now)
    row ← update_returning job_id (is_stale lease now) fail_lost
    pure (is_some row)

  unfoldable pub requeue_stale_lease : ℕ → Work Bool
  requeue_stale_lease job_id = do
    now ← gets (λ s. s.now)
    row ← update_returning job_id (is_stale lease now) requeue_lost
    pure (is_some row)

-- `not_before IS NOT NULL AND not_before <= now()`
abbrev pub is_due : ℕ → Option ℕ → Bool
is_due now none = false
is_due now (some t) = leb t now

unfoldable pub end_wait : ℕ → Job → Job
end_wait now j = record j {
  status = Status.queued;
  stage = Stage.queued_after_wait;
  not_before = none;
  updated_at = now;
}

abbrev pub wait_is_over : ℕ → Job → Bool
wait_is_over now j = is_waiting j.status && is_due now j.not_before

unfoldable pub release_due_provider_waits : Work (Unit {0})
release_due_provider_waits =
    modify λ s. record s { jobs = map_where (wait_is_over s.now) (end_wait s.now) s.jobs }

-- The jobs of a user that count against the concurrency limit of a backend.
abbrev pub takes_slot : ℕ → Backend → Job → Bool
takes_slot user b j =
    elim j.user_id [ none ↦ false | some u ↦ u == user ]
    && (same_backend j.execution_backend b && is_active j.status)

unfoldable pub active_job_count : ℕ → Backend → Work ℕ
active_job_count user b s = (ok (count_where (takes_slot user b) s.jobs), s)

-- ── the service ──

pub data Recovery : Type 0 where
  canceled failed requeued : ℕ → Recovery

abbrev pub noted : Bool → Recovery → Option Recovery
noted true r = some r
noted false r = none

-- What is done with one row that `stale_leases` read.
unfoldable pub recover_row : ℕ → Job → Work (Option Recovery)
recover_row lease row =
    when wants_cancel row
    then (do changed ← cancel_stale_lease lease row.id; pure (noted changed (canceled row.id)))
    else when exhausted row
    then (do changed ← fail_stale_lease lease row.id; pure (noted changed (failed row.id)))
    else (do changed ← requeue_stale_lease lease row.id; pure (noted changed (requeued row.id)))

abbrev pub noted_first : Option Recovery → List Recovery → List Recovery
noted_first none rs = rs
noted_first (some r) rs = r ∷ rs

unfoldable pub recover_rows : ℕ → List Job → Work (List Recovery)
recover_rows lease [] = pure []
recover_rows lease (row ∷ rows) = do
  first ← recover_row lease row
  rest ← recover_rows lease rows
  pure (noted_first first rest)

unfoldable pub recover_stale_leases : ℕ → Work (List Recovery)
recover_stale_leases lease = do rows ← stale_leases lease; recover_rows lease rows

-- ── the worker's round ──

-- A canceled or failed job is settled; a requeued one keeps its reservation.
unfoldable pub settle_recovery : Recovery → Work (Unit {0})
settle_recovery (canceled job_id) = finalize job_id false
settle_recovery (failed job_id) = finalize job_id false
settle_recovery (requeued job_id) = pure tt

unfoldable pub settle_recoveries : List Recovery → Work (Unit {0})
settle_recoveries [] = pure tt
settle_recoveries (r ∷ rs) = do settle_recovery r; settle_recoveries rs

-- `_run_maintenance(force=True)`: due waits first, then lost leases.
unfoldable pub run_maintenance : ℕ → Work (Unit {0})
run_maintenance lease = do
  release_due_provider_waits
  recoveries ← recover_stale_leases lease
  settle_recoveries recoveries
