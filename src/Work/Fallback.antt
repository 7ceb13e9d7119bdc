-- ===== src/Work/Fallback.antt =====
-- Falling back to the API from a subscription backend: `fallback_to_api` of
-- work/adapters/outbound/worker_state.py.
use reading_wiki.Prelude.{ℕ, String, Bool, false, none, some, is_some}
use reading_wiki.Errors.{pure, ◌>>=◌}
use reading_wiki.Work.Job.{Job, Status, Stage, Backend}
use reading_wiki.Work.Store.{Work, update_returning}
use reading_wiki.Work.Transitions.{runs}

unfoldable pub switch_to_api : Backend → String → ℕ → String → ℕ → Job → Job
switch_to_api b model max_attempts error now j = record j {
  execution_backend = Backend.api;
  backend_fallback_from = some b;
  backend_model = some model;
  backend_fallback_allowed = false;
  status = Status.queued;
  stage = Stage.switching_to_api b;
  attempts = 0;
  max_attempts = max_attempts;
  error = some error;
  claim_token = none;
  claimed_at = none;
  not_before = none;
  cancel_requested_at = none;
  updated_at = now;
}

-- `fallback_to_api` of the repository of backend `b`.
unfoldable pub fallback_to_api : Backend → ℕ → String → ℕ → String → Work Bool
fallback_to_api b job_id model max_attempts error = do
  row ← update_returning job_id runs (switch_to_api b model max_attempts error)
  pure (is_some row)
