-- ===== src/Ai/Tests.antt =====
-- Runs of the policy on small tables, and the theorems on them.
use reading_wiki.Prelude.{
  ◌≡◌, ◌≢◌, ◌<◌, refl, true, false, none, some, [], ◌∷◌, first_match, count_where, put_first,
  select,
}
use reading_wiki.Errors.{ok, err, forbidden}
use reading_wiki.Identity.Principal.{AccountStatus}
use reading_wiki.Work.Job.{Job, Backend, RequestedBackend}
use reading_wiki.Work.Tests.Data.{db, running_job}
use reading_wiki.Work.Leases.{takes_slot}
use reading_wiki.Ai.Backend.{
  Workload, Reason, BackendDecision, parse_requested, parse_workload, parse_backend,
}
use reading_wiki.Ai.Settings.{Settings, model_for}
use reading_wiki.Ai.Grants.{Policy, AiDb, find_policy}
use reading_wiki.Ai.Resolve.{
  User, concurrency_in, Verdict, version_in, resolve_selected, resolve_requested, resolve_backend,
  reauthorize_job,
}
use reading_wiki.Ai.Resolve.Decisions.{
  IsAuthorized, resolve_backend-IsAuthorized, resolve_backend-room,
}
use reading_wiki.Ai.Resolve.Reauthorized.{
  reauthorize_job-IsAuthorized, reauthorize_job-resolve_backend,
}
use reading_wiki.Ai.Admin.{
  Values, upsert_policy, delete_policy, store_policy, write_policy, check_values, policy_row,
  insert_or_update, revoke_changed, revoke_backend, difference, sorted_set, named_in, any_unknown,
  next_version, cancel_revoked_jobs, revoked_job_ids, cancel_each, ids,
}
use reading_wiki.Ai.Admin.Changes.{
  IsValid, AllValid, Change, change_all, change_all-AllValid, delete_policy-reauthorize_job,
}
use reading_wiki.Ai.Admin.Versions.{upsert_policy-find_policy}

abbrev cfg : Settings
cfg = record {
  agy_enabled = true;
  openai_codex_enabled = false;
  agy_codex_enabled = true;
  openai_codex_codex_enabled = false;
  agy_model_translate = "flash-medium";
  agy_model_codex = "flash-high";
  agy_model_segment = "flash-medium";
  agy_model_ocr = "flash-high";
  openai_codex_model_translate = "terra";
  openai_codex_model_codex = "luna";
  model_translate = "metered";
  model_flash = "metered";
  model_pro = "metered-pro";
  segment_model = "metered";
  gemini_vision_model = "metered-vision";
  agy_worker_health_ttl_seconds = 90;
  openai_codex_worker_health_ttl_seconds = 90;
}

abbrev policy : Policy
policy = record {
  user_id = 4;
  agy_enabled = true;
  openai_codex_enabled = false;
  default_backend = Backend.agy;
  agy_workloads = Workload.translate_batch ∷ [];
  openai_codex_workloads = [];
  fallback_to_api = true;
  max_concurrent_agy_jobs = 2;
  max_concurrent_openai_codex_jobs = 1;
  policy_version = 3;
  notes = none;
  granted_by = some 1;
}

abbrev ai_db : AiDb
ai_db = record { policies = policy ∷ []; heartbeats = []; users = 1 ∷ 4 ∷ []; work = db }

abbrev reader : User
reader = record { id = 4; status = some AccountStatus.active }

abbrev values : Values
values = record {
  agy_enabled = some true;
  openai_codex_enabled = none;
  default_backend = some "agy";
  agy_workloads = "translate_batch" ∷ "codex_extract" ∷ "translate_batch" ∷ [];
  openai_codex_workloads = [];
  fallback_to_api = none;
  max_concurrent_agy_jobs = some 2;
  max_concurrent_openai_codex_jobs = none;
  notes = some "";
}

abbrev decision : BackendDecision
decision = record {
  requested = RequestedBackend.auto;
  resolved = Backend.agy;
  workload = Workload.translate_batch;
  reason = Reason.user_policy_default;
  policy_version = some 3;
  fallback_to_api = true;
  model = some "flash-medium";
}

abbrev named_decision : BackendDecision
named_decision = record decision {
  requested = RequestedBackend.agy;
  reason = Reason.explicit Backend.agy;
}

abbrev granted_job : Job
granted_job = record running_job { backend_policy_version = some 3 }

decided : (resolve_backend cfg reader Workload.translate_batch "auto" true ai_db).0 ≡ ok decision
unfolding resolve_backend resolve_requested resolve_selected parse_requested model_for first_match
    count_where
decided = refl

decided_by_name :
    (resolve_backend cfg reader Workload.translate_batch "agy" true ai_db).0 ≡ ok named_decision
unfolding resolve_backend resolve_requested resolve_selected parse_requested model_for first_match
    count_where
decided_by_name = refl

-- A named backend without a grant for the workload is refused.
refused : (resolve_backend cfg reader Workload.codex_extract "agy" true ai_db).0 ≡ err forbidden
unfolding resolve_backend resolve_requested resolve_selected parse_requested model_for first_match
    count_where
refused = refl

let_through :
    reauthorize_job cfg granted_job (some reader) ai_db ≡ (ok (true, Verdict.passed), ai_db)
unfolding reauthorize_job first_match
let_through = refl

passes : (reauthorize_job cfg granted_job (some reader) ai_db).0 ≡ ok (true, Verdict.passed)
unfolding reauthorize_job first_match
passes = refl

named_agy : parse_requested "agy" ≡ some RequestedBackend.agy
unfolding parse_requested
named_agy = refl

resolve_backend-IsAuthorized_example :
    IsAuthorized cfg Workload.translate_batch Backend.agy reader ai_db (some 3)
resolve_backend-IsAuthorized_example =
    resolve_backend-IsAuthorized cfg reader Workload.translate_batch "auto" true ai_db
      {d = decision} decided refl

reauthorize_job-IsAuthorized_example :
    IsAuthorized cfg Workload.translate_batch Backend.agy reader ai_db
      (version_in (find_policy 4 ai_db.policies))
reauthorize_job-IsAuthorized_example =
    reauthorize_job-IsAuthorized cfg granted_job Workload.translate_batch reader ai_db
      {v = Verdict.passed} refl passes

reauthorize_job-resolve_backend_example :
    reauthorize_job cfg granted_job (some reader) ai_db ≡ (ok (true, Verdict.passed), ai_db)
reauthorize_job-resolve_backend_example =
    reauthorize_job-resolve_backend cfg reader Workload.translate_batch "auto" true ai_db ai_db
      granted_job {d = decision} decided refl refl refl refl refl refl

policy-IsValid : IsValid policy
policy-IsValid = record { default_enabled = refl; agy_bounds = refl; openai_codex_bounds = refl }

change_all-AllValid_example :
    AllValid (change_all (Change.upsert 4 values 1 ∷ Change.delete 4 ∷ []) ai_db)
change_all-AllValid_example =
    change_all-AllValid (Change.upsert 4 values 1 ∷ Change.delete 4 ∷ []) ai_db (policy-IsValid, tt)

delete_policy-reauthorize_job_example :
    (reauthorize_job cfg granted_job (some reader) (delete_policy 4 ai_db).1).0
    ≢ ok (true, Verdict.passed)
delete_policy-reauthorize_job_example =
    delete_policy-reauthorize_job 4 ai_db cfg granted_job (some AccountStatus.active) Verdict.passed

abbrev changed_policy : Policy
changed_policy = record policy {
  agy_workloads = Workload.codex_extract ∷ Workload.translate_batch ∷ [];
  fallback_to_api = false;
  policy_version = 4;
}

changed : (upsert_policy 4 values 1 ai_db).0 ≡ ok changed_policy
unfolding upsert_policy store_policy write_policy check_values policy_row insert_or_update
    revoke_changed revoke_backend difference sorted_set named_in any_unknown parse_workload
    parse_backend first_match put_first select cancel_revoked_jobs revoked_job_ids cancel_each ids
changed = refl

upsert_policy-find_policy_example :
    (find_policy 4 (upsert_policy 4 values 1 ai_db).1.policies ≡ some changed_policy)
    × (changed_policy.policy_version ≡ next_version (find_policy 4 ai_db.policies))
upsert_policy-find_policy_example =
    upsert_policy-find_policy 4 ai_db values 1 4 {row = changed_policy} changed

resolve_backend-room_example :
    count_where (takes_slot 4 Backend.agy) ai_db.work.jobs
    < concurrency_in Backend.agy (find_policy 4 ai_db.policies)
resolve_backend-room_example =
    resolve_backend-room cfg reader Workload.translate_batch "auto" ai_db {d = decision} decided
      refl
