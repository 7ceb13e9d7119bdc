-- ===== src/Ai/Resolve/Reauthorized.antt =====
-- `reauthorize_job` beside `resolve_backend`: what a worker may run is what was decided, as long
-- as the settings and the grant are as they were.
use reading_wiki.Prelude.{◌≡◌, String, Bool, true, false, some, arith, Option-cases, inl, inr}
use reading_wiki.Errors.{ok}
use reading_wiki.Identity.Principal.{AccountStatus}
use reading_wiki.Work.Job.{Job}
use reading_wiki.Ai.Backend.{Workload, BackendDecision, is_api, workload_for_job_kind}
use reading_wiki.Ai.Settings.{Settings}
use reading_wiki.Ai.Grants.{AiDb, find_policy}
use reading_wiki.Ai.Resolve.{User, Verdict, version_in, resolve_backend, reauthorize_job}
use reading_wiki.Ai.Resolve.Decisions.{IsAuthorized, resolve_backend-IsAuthorized}

module _ (cfg : Settings) (j : Job) (w : Workload) (u : User) (s : AiDb) where
  reauthorize_job-passed :
      workload_for_job_kind j.kind ≡ some w
      → u.status ≡ some AccountStatus.active
      → is_api j.execution_backend ≡ false
      → IsAuthorized cfg w j.execution_backend u s j.backend_policy_version
      → reauthorize_job cfg j (some u) s ≡ (ok (true, Verdict.passed), s)
  unfolding reauthorize_job
  reauthorize_job-passed kind active subscription a =
      rw (kind, active, a.found, a.current)
        (ground (arith, a.allowed, a.workload_allowed, a.is_implemented, a.access, a.covered))

  -- A job that is let through is covered at that moment: the settings, the implementation, the
  -- account and the grant all allow it.
  pub reauthorize_job-IsAuthorized :
      {v : Verdict}
      → workload_for_job_kind j.kind ≡ some w
      → (reauthorize_job cfg j (some u) s).0 ≡ ok (true, v)
      → IsAuthorized cfg w j.execution_backend u s (version_in (find_policy u.id s.policies))
  unfolding reauthorize_job
  reauthorize_job-IsAuthorized {v} kind h = elim (Option-cases (find_policy u.id s.policies)) [
    | inl missing ↦ ground arith
    | inr (p, there) ↦ record {
      allowed = ground arith;
      workload_allowed = ground arith;
      is_implemented = ground arith;
      user_active = ground arith;
      policy = p;
      found = there;
      access = ground arith;
      covered = ground arith;
      current = ground arith;
    }
  ]

-- A job that carries the backend and the policy version of a decision for a subscription backend,
-- and is of a kind that is its workload, is let through by a worker that has the settings of the
-- decision, with no word of a changed version, where the user is as the decision read it and
-- active, and the grants are those that the decision read, whatever became of the jobs.
pub reauthorize_job-resolve_backend :
    (cfg : Settings) (u : User) (w : Workload) (requested : String) (enforce : Bool) (s s' : AiDb)
    (j : Job) {d : BackendDecision}
    → (resolve_backend cfg u w requested enforce s).0 ≡ ok d
    → is_api d.resolved ≡ false
    → j.execution_backend ≡ d.resolved
    → j.backend_policy_version ≡ d.policy_version
    → workload_for_job_kind j.kind ≡ some w
    → u.status ≡ some AccountStatus.active
    → s'.policies ≡ s.policies
    → reauthorize_job cfg j (some u) s' ≡ (ok (true, Verdict.passed), s')
reauthorize_job-resolve_backend cfg u w requested enforce s s' j {d} h subscription on version kind
      active same =
    let a = resolve_backend-IsAuthorized cfg u w requested enforce s {d = d} h subscription in
    reauthorize_job-passed cfg j w u s' kind active (rw on subscription) (
      rw (on, version)
        (record {
          allowed = a.allowed;
          workload_allowed = a.workload_allowed;
          is_implemented = a.is_implemented;
          user_active = a.user_active;
          policy = a.policy;
          found = rw same a.found;
          access = a.access;
          covered = a.covered;
          current = a.current;
        }))
