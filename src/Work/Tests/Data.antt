-- ===== src/Work/Tests/Data.antt =====
-- Rows and databases for the tests.
use reading_wiki.Prelude.{true, false, none, some, List, [], ◌∷◌}
use reading_wiki.Identity.Quota.Table.{Usage, fresh_row}
use reading_wiki.Work.Job.{Job, Kind, Status, Stage, Backend, RequestedBackend}
use reading_wiki.Work.Store.{Db}
use reading_wiki.Work.Create.{Submission, Grants}

-- A queued translation of user 4 on the metered API, with nine chapters reserved.
abbrev pub queued_job : Job
queued_job = record {
  id = 1;
  kind = Kind.translate;
  novel_id = some 3;
  user_id = some 4;
  status = Status.queued;
  stage = Stage.queued;
  progress = "{}";
  options = "{}";
  idempotency_key = some "translate:3";
  quota_kind = some "translated_chapters";
  quota_reserved = 9;
  quota_consumed = 0;
  quota_finalized = false;
  error = none;
  attempts = 0;
  max_attempts = 3;
  claim_token = none;
  claimed_at = none;
  backend_requested = RequestedBackend.auto;
  execution_backend = Backend.api;
  backend_policy_version = none;
  backend_fallback_allowed = false;
  backend_fallback_from = none;
  backend_model = none;
  not_before = none;
  cancel_requested_at = none;
  created_at = 100;
  updated_at = 100;
}

-- A running one of the AGY worker, which has translated four chapters.
abbrev pub running_job : Job
running_job = record queued_job {
  id = 2;
  status = Status.running;
  stage = Stage.claimed;
  idempotency_key = some "translate:5";
  execution_backend = Backend.agy;
  quota_consumed = 4;
  attempts = 1;
  claim_token = some "agy-1";
  claimed_at = some 150;
}

abbrev pub finished_job : Job
finished_job = record queued_job {
  id = 3;
  status = Status.done;
  stage = Stage.done;
  quota_finalized = true;
  quota_consumed = 9;
}

abbrev pub usage : List Usage
usage = record (fresh_row 4 7) { translated_chapters = 27 } ∷ []

abbrev pub db : Db
db = record {
  jobs = queued_job ∷ running_job ∷ finished_job ∷ [];
  next_id = 4;
  usage = usage;
  now = 200;
  month = 7;
}

abbrev pub grants : Grants
grants = record {
  agy_enabled = true;
  openai_codex_enabled = false;
  max_concurrent_agy_jobs = 1;
  max_concurrent_openai_codex_jobs = 1;
}

abbrev pub submission : Submission
submission = record {
  novel_id = some 3;
  user_id = some 4;
  options = "{}";
  idempotency_key = some " translate:3 ";
  quota_kind = some "translated_chapters";
  quota_reserved = 9;
  max_attempts = none;
  backend_requested = RequestedBackend.auto;
  execution_backend = Backend.api;
  backend_policy_version = none;
  backend_fallback_allowed = false;
  backend_model = none;
  policy_lookup = some (λ user. some grants);
}
