-- ===== src/Ai/Grants.antt =====
-- The tables that the policy reads: `user_ai_backend_policies` (novelwiki/db/schema.py, from
-- line 64), the heartbeats, the users and, through its dependencies
-- (novelwiki/bootstrap/ai_execution.py), the jobs of the Work module.
use reading_wiki.Prelude.{
  ℕ, ◌+◌, String, Bool, false, ◌&&◌, Option, none, some, List, [], first_match, leb, ◌==◌,
  if◌then◌else◌, is_some,
}
use reading_wiki.Errors.{Exec, gets, pure, when◌then◌else◌, ◌>>=◌}
use reading_wiki.Work.Job.{Backend, same_backend}
use reading_wiki.Work.Store.{Db, Work}
use reading_wiki.Ai.Backend.{Workload}
use reading_wiki.Ai.Settings.{Settings, globally_enabled, health_ttl_seconds}

pub record Policy : Type 0 where
  pub user_id : ℕ
  pub agy_enabled : Bool
  pub openai_codex_enabled : Bool
  pub default_backend : Backend
  pub agy_workloads : List Workload
  pub openai_codex_workloads : List Workload
  pub fallback_to_api : Bool
  pub max_concurrent_agy_jobs : ℕ
  pub max_concurrent_openai_codex_jobs : ℕ
  pub policy_version : ℕ
  pub notes : Option String
  pub granted_by : Option ℕ

pub record Heartbeat : Type 0 where
  pub backend : Backend
  pub healthy : Bool
  pub heartbeat_at : ℕ

pub record AiDb : Type 0 where
  pub policies : List Policy
  pub heartbeats : List Heartbeat
  pub users : List ℕ
  pub work : Db

abbrev pub AiExec : Type 0 → Type 0
AiExec = Exec AiDb

-- The fields that `_provider_fields` names. It raises for the API, which no caller asks about:
-- here the API has no grant.
abbrev pub enabled : Backend → Policy → Bool
enabled Backend.api p = false
enabled Backend.agy p = p.agy_enabled
enabled Backend.openai_codex p = p.openai_codex_enabled

abbrev pub workloads : Backend → Policy → List Workload
workloads Backend.api p = []
workloads Backend.agy p = p.agy_workloads
workloads Backend.openai_codex p = p.openai_codex_workloads

abbrev pub concurrency : Backend → Policy → ℕ
concurrency Backend.api p = 0
concurrency Backend.agy p = p.max_concurrent_agy_jobs
concurrency Backend.openai_codex p = p.max_concurrent_openai_codex_jobs

abbrev pub of_user : ℕ → Policy → Bool
of_user user p = p.user_id == user

abbrev pub find_policy : ℕ → List Policy → Option Policy
find_policy user = first_match (of_user user)

unfoldable pub get_policy : ℕ → AiExec (Option Policy)
unfolding ◌>>=◌
get_policy user = gets (λ s. find_policy user s.policies)

abbrev pub is_requester : ℕ → Option ℕ → Bool
is_requester user none = false
is_requester user (some u) = u == user

-- A call of the Work module.
unfoldable pub with_work : {A : Type 0} → Work A → AiExec A
with_work m s = let (r, w) = m s.work in (r, record s { work = w })

abbrev pub is_fresh : ℕ → ℕ → Backend → Heartbeat → Bool
is_fresh now ttl b h = same_backend h.backend b && (h.healthy && leb now (h.heartbeat_at + ttl))

unfoldable pub worker_available : Settings → Backend → AiExec Bool
unfolding ◌>>=◌
worker_available cfg b =
    when globally_enabled cfg b
    then gets
        (λ s. is_some (first_match (is_fresh s.work.now (health_ttl_seconds cfg b) b) s.heartbeats))
    else pure false

pub record Capability : Type 0 where
  pub enabled : Bool
  pub default_backend : Backend
  pub workloads : List Workload
  pub fallback_to_api : Bool
  pub available : Bool

abbrev pub enabled_in : Backend → Option Policy → Bool
enabled_in b none = false
enabled_in b (some p) = enabled b p

abbrev pub workloads_in : Backend → Option Policy → List Workload
workloads_in b none = []
workloads_in b (some p) = workloads b p

abbrev pub default_in : Option Policy → Backend
default_in none = Backend.api
default_in (some p) = p.default_backend

abbrev pub fallback_in : Option Policy → Bool
fallback_in none = false
fallback_in (some p) = p.fallback_to_api

-- `capability` of `capability_for_user`, for one subscription backend. A worker is not asked for
-- where access is not enabled.
unfoldable pub capability : Settings → Option Policy → Backend → AiExec Capability
unfolding ◌>>=◌
capability cfg policy b = do
  available ← when enabled_in b policy then worker_available cfg b else pure false
  pure (record {
    enabled = enabled_in b policy;
    default_backend = default_in policy;
    workloads = workloads_in b policy;
    fallback_to_api = fallback_in policy;
    available = available;
  })

unfoldable pub capability_for_user : Settings → ℕ → AiExec (Capability × Capability)
unfolding ◌>>=◌
capability_for_user cfg user = do
  policy ← get_policy user
  agy ← capability cfg policy Backend.agy
  openai_codex ← capability cfg policy Backend.openai_codex
  pure (agy, openai_codex)
