-- ===== src/Work/Waiting.antt =====
-- Provider waits: `wait_for_provider` and `retry_waiting` of work/adapters/outbound/postgres.py.
use reading_wiki.Prelude.{
  ℕ, ◌+◌, ◌*◌, String, Bool, true, ◌&&◌, Option, none, some, max, if◌then◌else◌, clip, is_some,
  map_where, count_where,
}
use reading_wiki.Errors.{ok, pure, ◌>>=◌}
use reading_wiki.Work.Job.{Job, Status, Stage, Backend, is_waiting, same_backend}
use reading_wiki.Work.Store.{Work, update_returning}
use reading_wiki.Work.Transitions.{runs}

unfoldable pub park : String → ℕ → ℕ → Job → Job
park error minutes now j = record j {
  status = Status.waiting_provider;
  stage = Stage.waiting_for (
      if same_backend j.execution_backend Backend.openai_codex
      then Backend.openai_codex
      else Backend.agy);
  error = some (clip 4000 error);
  not_before = some (now + 60 * max 1 minutes);
  claim_token = none;
  claimed_at = none;
  updated_at = now;
}

unfoldable pub wait_for_provider : ℕ → String → ℕ → Work Bool
wait_for_provider job_id error minutes = do
  row ← update_returning job_id runs (park error minutes)
  pure (is_some row)

unfoldable pub release_wait : ℕ → Job → Job
release_wait now j = record j {
  status = Status.queued;
  stage = Stage.queued;
  not_before = none;
  error = none;
  updated_at = now;
}

abbrev pub waits : Job → Bool
waits j = is_waiting j.status

abbrev pub on_backend : Option Backend → Job → Bool
on_backend none j = true
on_backend (some b) j = same_backend j.execution_backend b

unfoldable pub retry_one : ℕ → Work ℕ
retry_one job_id = do
  row ← update_returning job_id waits release_wait
  pure (if is_some row then 1 else 0)

abbrev pub waits_on : Option Backend → Job → Bool
waits_on backend j = waits j && on_backend backend j

-- The rows of one job, or all those of a backend; the count of the rows released.
unfoldable pub retry_waiting : Option ℕ → Option Backend → Work ℕ
retry_waiting (some job_id) backend s = retry_one job_id s
retry_waiting none backend s = (
  ok (count_where (waits_on backend) s.jobs),
  record s { jobs = map_where (waits_on backend) (release_wait s.now) s.jobs },
)
