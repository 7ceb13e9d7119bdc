-- ===== src/Work/Transitions.antt =====
-- The state transitions of work/adapters/outbound/postgres.py. Each is one UPDATE with a guard;
-- the tests and the new rows are functions of their own. Logging and audit records are left out.
use reading_wiki.Prelude.{
  ℕ, ◌+◌, ◌*◌, ◌^◌, String, Bool, true, false, not, ◌&&◌, ◌||◌, Option, none, some, leb, ltb, min,
  if◌then◌else◌, clip, is_some,
}
use reading_wiki.Errors.{
  on_option, ok, pure, raise, gets, when◌then◌else◌, ◌>>=◌, ◌>>◌, out_of_range,
}
use reading_wiki.Work.Job.{
  Job, Status, Stage, is_active, is_running, is_canceled_status, is_subscription,
}
use reading_wiki.Work.Store.{Work, find, update_returning}
use reading_wiki.Work.Settlement.{finalize}

abbrev pub runs : Job → Bool
runs j = is_running j.status

abbrev pub is_open : Job → Bool
is_open j = is_active j.status

-- ── reading ──

unfoldable pub get_job : ℕ → Work (Option Job)
get_job job_id s = (ok (find job_id s.jobs), s)

abbrev pub cancel_seen : Option Job → Bool
cancel_seen none = false
cancel_seen (some j) = is_canceled_status j.status || is_some j.cancel_requested_at

unfoldable pub is_canceled : ℕ → Work Bool
is_canceled job_id s = (ok (cancel_seen (find job_id s.jobs)), s)

-- ── `update_job`, at the two fields that handlers write, and `set_progress` ──

unfoldable pub with_stage : Stage → ℕ → Job → Job
with_stage stage now j = record j { stage = stage; updated_at = now }

unfoldable pub with_progress : String → Option Stage → ℕ → Job → Job
with_progress progress none now j = record j { progress = progress; updated_at = now }
with_progress progress (some stage) now j = record j {
  progress = progress;
  stage = stage;
  updated_at = now;
}

abbrev pub always : Job → Bool
always j = true

unfoldable pub set_stage : ℕ → Stage → Work (Unit {0})
set_stage job_id stage = do row ← update_returning job_id always (with_stage stage); pure tt

unfoldable pub set_progress : ℕ → String → Option Stage → Work (Unit {0})
set_progress job_id progress stage = do
  row ← update_returning job_id always (with_progress progress stage)
  pure tt

-- ── cancellation ──

-- A running subscription job keeps its lease until its worker stops the child process.
unfoldable pub request_cancel : ℕ → Job → Job
request_cancel now j =
    if is_running j.status && is_subscription j.execution_backend
    then record j {
      stage = Stage.cancel_requested;
      cancel_requested_at = some now;
      updated_at = now;
    }
    else record j {
      status = Status.canceled;
      stage = Stage.canceled;
      cancel_requested_at = some now;
      claim_token = none;
      claimed_at = none;
      updated_at = now;
    }

unfoldable pub cancel_job : ℕ → Work Bool
cancel_job job_id = do
  row ← update_returning job_id is_open request_cancel
  on_option row (pure false) (λ j.
      when is_canceled_status j.status then (do finalize job_id false; pure true) else pure true)

abbrev pub runs_with_request : Job → Bool
runs_with_request j = is_running j.status && is_some j.cancel_requested_at

unfoldable pub stop_canceled : ℕ → Job → Job
stop_canceled now j = record j {
  status = Status.canceled;
  stage = Stage.canceled;
  claim_token = none;
  claimed_at = none;
  updated_at = now;
}

unfoldable pub mark_canceled_if_running : ℕ → Work Bool
mark_canceled_if_running job_id = do
  row ← update_returning job_id runs_with_request stop_canceled
  on_option row (pure false) (λ j. do finalize job_id false; pure true)

-- ── success ──

unfoldable pub complete : Option String → ℕ → Job → Job
complete none now j = record j {
  status = Status.done;
  stage = Stage.done;
  error = none;
  claim_token = none;
  claimed_at = none;
  updated_at = now;
}
complete (some progress) now j = record j {
  status = Status.done;
  stage = Stage.done;
  error = none;
  progress = progress;
  claim_token = none;
  claimed_at = none;
  updated_at = now;
}

unfoldable pub mark_done_if_running : ℕ → Option String → Work Bool
mark_done_if_running job_id progress = do
  row ← update_returning job_id runs (complete progress)
  pure (is_some row)

-- ── failure ──

abbrev pub exhausted : Job → Bool
exhausted j = leb j.max_attempts j.attempts

-- `LEAST(300, power(2, attempts)::int * 5)` in 32-bit integers, which PostgreSQL refuses to leave.
unfoldable pub backoff_seconds : ℕ → Option ℕ
backoff_seconds attempts =
    if ltb (2 ^ attempts * 5) (2 ^ 31) then some (min 300 (2 ^ attempts * 5)) else none

unfoldable pub fail_terminally : String → ℕ → Job → Job
fail_terminally error now j = record j {
  status = Status.failed;
  stage = Stage.failed;
  error = some (clip 4000 error);
  claim_token = none;
  claimed_at = none;
  not_before = none;
  updated_at = now;
}

unfoldable pub retry_later : String → ℕ → ℕ → Job → Job
retry_later error delay now j = record j {
  status = Status.queued;
  stage = Stage.retrying j.attempts j.max_attempts;
  error = some (clip 4000 error);
  claim_token = none;
  claimed_at = none;
  not_before = some (now + delay);
  updated_at = now;
}

-- Whether the UPDATE of `fail_or_retry` would compute a delay that is out of range.
abbrev pub overflows : Option Job → Bool
overflows none = false
overflows (some j) =
    is_running j.status && (not (exhausted j) && not (is_some (backoff_seconds j.attempts)))

unfoldable pub after_failure : String → ℕ → Job → Job
unfolding fail_terminally retry_later backoff_seconds
after_failure error now j =
    if exhausted j
    then fail_terminally error now j
    else elim (backoff_seconds j.attempts) [ none ↦ j | some delay ↦ retry_later error delay now j ]

abbrev pub has_failed : Status → Bool
has_failed Status.failed = true
has_failed _ = false

unfoldable pub fail_or_retry : ℕ → String → Work (Unit {0})
fail_or_retry job_id error = do
  target ← gets (λ s. find job_id s.jobs)
  when overflows target then raise out_of_range else do
    row ← update_returning job_id runs (after_failure error)
    -- with no row, a cancel landed first
    on_option row (finalize job_id false)
        (λ j. when has_failed j.status then finalize job_id false else pure tt)
