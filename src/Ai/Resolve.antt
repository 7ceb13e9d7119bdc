-- ===== src/Ai/Resolve.antt =====
-- `resolve_backend` and `reauthorize_job` of ai_execution/adapters/outbound/policy.py.
pub mod Decisions
pub mod Reauthorized
use reading_wiki.Prelude.{
  ℕ, String, Bool, true, false, not, ◌&&◌, ◌||◌, Option, none, some, leb, ◌==◌, if◌then◌else◌,
  get_or, is_some,
}
use reading_wiki.Errors.{
  pure, raise, Error, raise_if, or_raise, when◌then◌else◌, on_option, ◌>>=◌, ◌>>◌,
  validation_failed, provider_unavailable, forbidden, rate_limited,
}
use reading_wiki.Identity.Principal.{AccountStatus}
use reading_wiki.Identity.Principal
use reading_wiki.Work.Job.{Job, Backend, RequestedBackend}
use reading_wiki.Work.Leases.{active_job_count}
use reading_wiki.Ai.Backend.{
  Workload, Reason, BackendDecision, parse_requested, member, implemented, is_auto, is_api,
  named_backend, workload_for_job_kind,
}
use reading_wiki.Ai.Settings.{Settings, globally_enabled, workload_globally_enabled, model_for}
use reading_wiki.Ai.Grants.{
  Policy, AiExec, enabled, workloads, enabled_in, workloads_in, default_in, fallback_in,
  concurrency, get_policy, with_work,
}

-- The user as the policy reads it: a row that may lack its status.
pub record User : Type 0 where
  pub id : ℕ
  pub status : Option AccountStatus

-- `value or 1`
abbrev pub or_one : ℕ → ℕ
or_one n = if n == 0 then 1 else n

abbrev pub concurrency_in : Backend → Option Policy → ℕ
concurrency_in b none = 1
concurrency_in b (some p) = or_one (concurrency b p)

abbrev pub version_in : Option Policy → Option ℕ
version_in none = none
version_in (some p) = some p.policy_version

-- `granted`
unfoldable pub is_granted : Workload → Backend → Option Policy → Bool
is_granted w b policy =
    enabled_in b policy && (member w (workloads_in b policy) && member w (implemented b))

-- The backend to try: the one asked for, or the default of the grant.
abbrev pub selected : RequestedBackend → Option Policy → Backend
selected req policy = get_or (named_backend req) (default_in policy)

abbrev pub selected_reason : RequestedBackend → Backend → Reason
selected_reason req b = if is_auto req then Reason.user_policy_default else Reason.explicit b

module _ (cfg : Settings) (w : Workload) (req : RequestedBackend) where
  -- The decision for the API.
  abbrev pub on_api : Reason → Option ℕ → BackendDecision
  on_api reason version = record {
    requested = req;
    resolved = Backend.api;
    workload = w;
    reason = reason;
    policy_version = version;
    fallback_to_api = false;
    model = model_for cfg w Backend.api;
  }

  abbrev pub on_selected : Backend → Option Policy → BackendDecision
  on_selected b policy = record {
    requested = req;
    resolved = b;
    workload = w;
    reason = selected_reason req b;
    policy_version = version_in policy;
    fallback_to_api = fallback_in policy;
    model = model_for cfg w b;
  }

  -- What happens when a subscription backend cannot be used: a request that names it is refused,
  -- an automatic one goes to the API.
  abbrev pub unusable : Error → Reason → AiExec BackendDecision
  unusable e reason = when is_auto req then pure (on_api reason none) else raise e

  abbrev pub ungranted_reason : Backend → Reason
  ungranted_reason b =
      if member w (implemented b) then Reason.not_granted else Reason.workload_unimplemented

  abbrev pub missing_reason : Reason
  missing_reason = if cfg.agy_enabled then Reason.not_granted else Reason.global_disabled

  -- `resolve_backend` from the selected subscription backend on.
  unfoldable pub resolve_selected : User → Bool → Option Policy → Backend → AiExec BackendDecision
  unfolding ◌>>=◌ with_work active_job_count is_granted
  resolve_selected u enforce policy b =
      when not (globally_enabled cfg b)
      then unusable provider_unavailable Reason.global_disabled
      else when not (workload_globally_enabled cfg w b)
      then unusable provider_unavailable Reason.workload_disabled
      else when not (is_granted w b policy)
      then unusable forbidden (ungranted_reason b)
      else do
        raise_if (not (Principal.is_active (get_or u.status AccountStatus.active))) forbidden
        when enforce
            then (do
              active ← with_work (active_job_count u.id b)
              raise_if (leb (concurrency_in b policy) active) rate_limited)
            else pure tt
        pure (on_selected b policy)

  -- `resolve_backend` once the request is read.
  unfoldable pub resolve_requested : User → Bool → AiExec BackendDecision
  unfolding ◌>>=◌ get_policy
  resolve_requested u enforce =
      when is_api (get_or (named_backend req) Backend.agy)
      then pure (on_api Reason.explicit_api none)
      else do
        policy ← get_policy u.id
        when is_auto req && not (is_some policy)
            then pure (on_api missing_reason none)
            else when is_api (selected req policy)
            then pure (on_api Reason.user_policy_default_api (version_in policy))
            else resolve_selected u enforce policy (selected req policy)

unfoldable pub resolve_backend : Settings → User → Workload → String → Bool → AiExec BackendDecision
unfolding ◌>>=◌
resolve_backend cfg u w requested enforce = do
  req ← or_raise (parse_requested requested) validation_failed
  resolve_requested cfg w req u enforce

-- A constructor for each text that `reauthorize_job` gives beside its answer. A backend that the
-- text of the row does not name cannot occur in a `Job`.
pub data Verdict : Type 0 where
  global_disabled user_inactive workload_unimplemented workload_disabled : Verdict
  grant_revoked workload_revoked policy_version_changed passed : Verdict

abbrev pub version_verdict : ℕ → Option ℕ → Verdict
version_verdict current at_creation =
    if current == get_or at_creation 0 then passed else policy_version_changed

-- A user that is not there, or has no status, is not active.
abbrev pub active_user : Option User → Bool
active_user none = false
active_user (some u) = elim u.status [ none ↦ false | some s ↦ Principal.is_active s ]

module _ (cfg : Settings) (j : Job) where
  abbrev pub judge_grant : Workload → Policy → Bool × Verdict
  judge_grant w p =
      if not (enabled j.execution_backend p)
      then (false, grant_revoked)
      else if not (member w (workloads j.execution_backend p))
      then (false, workload_revoked)
      else (true, version_verdict p.policy_version j.backend_policy_version)

  abbrev pub judge_workload : Workload → User → AiExec (Bool × Verdict)
  judge_workload w u =
      when not (member w (implemented j.execution_backend))
      then pure (false, workload_unimplemented)
      else when not (workload_globally_enabled cfg w j.execution_backend)
      then pure (false, workload_disabled)
      else do
        policy ← get_policy u.id
        on_option policy (pure (false, grant_revoked)) (λ p. pure (judge_grant w p))

  abbrev pub judge_user : User → AiExec (Bool × Verdict)
  judge_user u =
      on_option (workload_for_job_kind j.kind) (pure (false, workload_unimplemented))
        (λ w. judge_workload w u)

  unfoldable pub reauthorize_job : Option User → AiExec (Bool × Verdict)
  unfolding ◌>>=◌ get_policy
  reauthorize_job user =
      when is_api j.execution_backend || not (globally_enabled cfg j.execution_backend)
      then pure (false, global_disabled)
      else when not (active_user user)
      then pure (false, user_inactive)
      else on_option user (pure (false, user_inactive)) judge_user
