-- ===== src/Work/Create.antt =====
-- `create_job`, `find_active` and `list_jobs` of work/adapters/outbound/postgres.py. The advisory
-- locks serialise the callers with one key, so a call is one step.
use reading_wiki.Prelude.{
  ℕ, ◌+◌, String, Bool, true, false, not, ◌&&◌, Option, none, some, List, [], ◌∷◌, ◌++◌, leb,
  if◌then◌else◌, get_or, strip, opt_eq, count_where, oldest_where,
}
use reading_wiki.Errors.{
  Result, ok, err, or_raise, when◌then◌else◌, ◌>>=◌, value_error, backend_policy_changed,
  active_job_limit,
}
use reading_wiki.Work.Job.{
  Job, Kind, Status, Stage, Backend, RequestedBackend, parse_kind, same_kind, is_smoke, is_active,
  is_subscription,
}
use reading_wiki.Work.Store.{Db, Work}
use reading_wiki.Work.Leases.{takes_slot}

-- What `policy_lookup` returns of a user's grants.
pub record Grants : Type 0 where
  pub agy_enabled : Bool
  pub openai_codex_enabled : Bool
  pub max_concurrent_agy_jobs : ℕ
  pub max_concurrent_openai_codex_jobs : ℕ

-- The keyword arguments of `create_job`; `options` is their JSON text.
pub record Submission : Type 0 where
  pub novel_id : Option ℕ
  pub user_id : Option ℕ
  pub options : String
  pub idempotency_key : Option String
  pub quota_kind : Option String
  pub quota_reserved : ℕ
  pub max_attempts : Option ℕ
  pub backend_requested : RequestedBackend
  pub execution_backend : Backend
  pub backend_policy_version : Option ℕ
  pub backend_fallback_allowed : Bool
  pub backend_model : Option String
  pub policy_lookup : Option (ℕ → Option Grants)

abbrev pub nonempty : String → Option String
nonempty String.[] = none
nonempty (String.◌∷◌ c s) = some (String.◌∷◌ c s)

-- `(key or "").strip() or None`
unfoldable pub clean_key : Option String → Option String
clean_key none = none
clean_key (some key) = nonempty (strip key)

-- Active, of this kind and this key.
abbrev pub is_duplicate : Kind → String → Job → Bool
is_duplicate k key j = same_kind j.kind k && (opt_eq j.idempotency_key key && is_active j.status)

abbrev pub row_created_at : Job → ℕ
row_created_at j = j.created_at

unfoldable pub find_duplicate : Kind → Option String → List Job → Option Job
find_duplicate k none jobs = none
find_duplicate k (some key) jobs = oldest_where (is_duplicate k key) row_created_at jobs

-- `find_active`: a key that is empty finds nothing.
unfoldable pub find_active : Kind → String → Work (Option Job)
find_active k key s = (ok (find_duplicate k (nonempty key) s.jobs), s)

abbrev pub enabled_for : Backend → Grants → Bool
enabled_for Backend.agy g = g.agy_enabled
enabled_for Backend.openai_codex g = g.openai_codex_enabled
enabled_for Backend.api g = g.openai_codex_enabled

abbrev pub concurrency_for : Backend → Grants → ℕ
concurrency_for Backend.agy g = g.max_concurrent_agy_jobs
concurrency_for Backend.openai_codex g = g.max_concurrent_openai_codex_jobs
concurrency_for Backend.api g = g.max_concurrent_openai_codex_jobs

-- The second look at the grant and the queue limit, for a subscription job of a user.
unfoldable pub check_slot : Backend → Option (ℕ → Option Grants) → ℕ → List Job → Result (Unit {0})
check_slot b none user jobs = err backend_policy_changed
check_slot b (some lookup) user jobs = elim (lookup user) [
  | none ↦ err backend_policy_changed
  | some g ↦
      if not (enabled_for b g)
      then err backend_policy_changed
      else if leb (concurrency_for b g) (count_where (takes_slot user b) jobs)
      then err active_job_limit
      else ok tt
]

unfoldable pub check_subscription : Kind → Submission → List Job → Result (Unit {0})
check_subscription k r jobs = elim r.user_id [
  | none ↦ ok tt
  | some user ↦
      if is_subscription r.execution_backend && not (is_smoke k)
      then check_slot r.execution_backend r.policy_lookup user jobs
      else ok tt
]

unfoldable pub new_job : Kind → Submission → Option String → ℕ → ℕ → ℕ → Job
new_job k r key default_attempts id now = record {
  id = id;
  kind = k;
  novel_id = r.novel_id;
  user_id = r.user_id;
  status = Status.queued;
  stage = Stage.queued;
  progress = "{}";
  options = r.options;
  idempotency_key = key;
  quota_kind = r.quota_kind;
  quota_reserved = r.quota_reserved;
  quota_consumed = 0;
  quota_finalized = false;
  error = none;
  attempts = 0;
  max_attempts = get_or r.max_attempts default_attempts;
  claim_token = none;
  claimed_at = none;
  backend_requested = r.backend_requested;
  execution_backend = r.execution_backend;
  backend_policy_version = r.backend_policy_version;
  backend_fallback_allowed = r.backend_fallback_allowed;
  backend_fallback_from = none;
  backend_model = r.backend_model;
  not_before = none;
  cancel_requested_at = none;
  created_at = now;
  updated_at = now;
}

abbrev pub insert_job : Job → Db → Db
insert_job j s = record s { jobs = s.jobs ++ j ∷ []; next_id = s.next_id + 1 }

-- The end of the transaction: the job to reuse, the refusal, or a new row.
unfoldable pub admit : ℕ → Kind → Submission → Option Job → Result (Unit {0}) → Work (ℕ × Bool)
admit default_attempts k r (some existing) check s = (ok (existing.id, false), s)
admit default_attempts k r none (err e) s = (err e, s)
admit default_attempts k r none (ok granted) s =
    let key = clean_key r.idempotency_key in
    (ok (s.next_id, true), insert_job (new_job k r key default_attempts s.next_id s.now) s)

-- The transaction, for a kind that is known: the id, and whether the job is new. The grant is
-- looked at only if there is no job to reuse.
unfoldable pub submit : ℕ → Kind → Submission → Work (ℕ × Bool)
submit default_attempts k r s =
    admit default_attempts k r (find_duplicate k (clean_key r.idempotency_key) s.jobs)
      (check_subscription k r s.jobs) s

-- `default_attempts` is the setting JOB_MAX_ATTEMPTS.
unfoldable pub create_job : ℕ → String → Submission → Work (ℕ × Bool)
create_job default_attempts kind r = do
  k ← or_raise (parse_kind kind) value_error
  submit default_attempts k r
