-- ===== src/Ai/Resolve/Decisions.antt =====
-- What a decision of `resolve_backend` says, and what becomes of it when the worker asks again.
use reading_wiki.Prelude.{
  ℕ, ◌<◌, ◌≡◌, sym, subst, String, Bool, true, false, Option, none, some, arith, get_or,
  count_where, Option-cases, inl, inr,
}
use reading_wiki.Errors.{ok}
use reading_wiki.Identity.Principal.{AccountStatus}
use reading_wiki.Identity.Principal
use reading_wiki.Work.Job.{Backend, RequestedBackend}
use reading_wiki.Work.Leases.{takes_slot}
use reading_wiki.Ai.Backend.{
  Workload, BackendDecision, parse_requested, member, implemented, is_auto, is_api, named_backend,
}
use reading_wiki.Ai.Settings.{Settings, globally_enabled, workload_globally_enabled}
use reading_wiki.Ai.Grants.{Policy, AiDb, enabled, workloads, find_policy}
use reading_wiki.Ai.Resolve.{
  User, concurrency_in, selected, resolve_selected, resolve_requested, resolve_backend,
}

-- The settings let backend `b` do work `w`, it is implemented there, the user is active, and the
-- user's grant of version `version` covers it.
pub record IsAuthorized (cfg : Settings) (w : Workload) (b : Backend) (u : User) (s : AiDb)
    (version : Option ℕ) : Type 0 where
  pub allowed : globally_enabled cfg b ≡ true
  pub workload_allowed : workload_globally_enabled cfg w b ≡ true
  pub is_implemented : member w (implemented b) ≡ true
  pub user_active : Principal.is_active (get_or u.status AccountStatus.active) ≡ true
  pub policy : Policy
  pub found : find_policy u.id s.policies ≡ some policy
  pub access : enabled b policy ≡ true
  pub covered : member w (workloads b policy) ≡ true
  pub current : version ≡ some policy.policy_version

module _ (cfg : Settings) (w : Workload) (req : RequestedBackend) (u : User) (enforce : Bool)
    (s : AiDb) where
  resolve_selected-IsAuthorized :
      (b : Backend) {d : BackendDecision}
      → (resolve_selected cfg w req u enforce (find_policy u.id s.policies) b s).0 ≡ ok d
      → is_api d.resolved ≡ false
      → (d.resolved ≡ b) × IsAuthorized cfg w b u s d.policy_version
  unfolding resolve_selected
  resolve_selected-IsAuthorized b {d} h subscription =
      elim (Option-cases (find_policy u.id s.policies)) [
        | inl missing ↦ ground arith
        | inr (p, there) ↦ (
          ground arith,
          record {
            allowed = ground arith;
            workload_allowed = ground arith;
            is_implemented = ground arith;
            user_active = ground arith;
            policy = p;
            found = there;
            access = ground arith;
            covered = ground arith;
            current = ground arith;
          },
        )
      ]

  resolve_requested-IsAuthorized :
      {d : BackendDecision}
      → (resolve_requested cfg w req u enforce s).0 ≡ ok d
      → is_api d.resolved ≡ false
      → IsAuthorized cfg w d.resolved u s d.policy_version
  unfolding resolve_requested
  resolve_requested-IsAuthorized {d} h subscription =
      let b : Backend = selected req (find_policy u.id s.policies) in
      let (same, granted) = resolve_selected-IsAuthorized b {d = d} (ground arith) subscription in
      subst (λ b. IsAuthorized cfg w b u s d.policy_version) (sym same) granted

  resolve_selected-room :
      (policy : Option Policy) (b : Backend) {d : BackendDecision}
      → (resolve_selected cfg w req u true policy b s).0 ≡ ok d
      → is_api d.resolved ≡ false
      → count_where (takes_slot u.id b) s.work.jobs < concurrency_in b policy
  unfolding resolve_selected
  resolve_selected-room none b {d} h subscription = ground arith
  resolve_selected-room (some p) b {d} h subscription = ground arith

  resolve_selected-named :
      (policy : Option Policy) (b : Backend) {d : BackendDecision}
      → (resolve_selected cfg w req u enforce policy b s).0 ≡ ok d
      → is_auto req ≡ false
      → (d.requested ≡ req) × (d.resolved ≡ b)
  unfolding resolve_selected
  resolve_selected-named policy b {d} h plain = (ground arith, ground arith)

  resolve_requested-named :
      (b : Backend) {d : BackendDecision}
      → named_backend req ≡ some b
      → (resolve_requested cfg w req u enforce s).0 ≡ ok d
      → (d.requested ≡ req) × (d.resolved ≡ b)
  unfolding resolve_requested
  resolve_requested-named b {d} named h =
      ground (arith, resolve_selected-named (find_policy u.id s.policies) b {d = d})

module _ (cfg : Settings) (w : Workload) (req : RequestedBackend) (u : User) (s : AiDb) where
  resolve_requested-room :
      {d : BackendDecision}
      → (resolve_requested cfg w req u true s).0 ≡ ok d
      → is_api d.resolved ≡ false
      → count_where (takes_slot u.id d.resolved) s.work.jobs
        < concurrency_in d.resolved (find_policy u.id s.policies)
  unfolding resolve_requested
  resolve_requested-room {d} h subscription =
      let policy : Option Policy = find_policy u.id s.policies in
      let b : Backend = selected req policy in
      let h' : (resolve_selected cfg w req u true policy b s).0 ≡ ok d = ground arith in
      let (same, granted) =
        resolve_selected-IsAuthorized cfg w req u true s b {d = d} h' subscription in
      subst (λ b. count_where (takes_slot u.id b) s.work.jobs < concurrency_in b policy) (sym same)
        (resolve_selected-room cfg w req u true s policy b {d = d} h' subscription)

module _ (cfg : Settings) (u : User) (w : Workload) (requested : String) (enforce : Bool)
    (s : AiDb) where
  -- A decision for a subscription backend is covered: the settings let the backend do the work,
  -- it is implemented there, the account is active, and the user has a grant of the decision's
  -- version with access to the backend and the workload.
  pub resolve_backend-IsAuthorized :
      {d : BackendDecision}
      → (resolve_backend cfg u w requested enforce s).0 ≡ ok d
      → is_api d.resolved ≡ false
      → IsAuthorized cfg w d.resolved u s d.policy_version
  unfolding resolve_backend
  resolve_backend-IsAuthorized {d} h subscription =
      elim (Option-cases (parse_requested requested)) [
        | inl unknown ↦ ground arith
        | inr (req, parsed) ↦
            resolve_requested-IsAuthorized cfg w req u enforce s {d = d} (ground arith) subscription
      ]

  -- A request that names a backend is decided for that backend, or refused.
  resolve_backend-named :
      (req : RequestedBackend) (b : Backend) {d : BackendDecision}
      → parse_requested requested ≡ some req
      → named_backend req ≡ some b
      → (resolve_backend cfg u w requested enforce s).0 ≡ ok d
      → (d.requested ≡ req) × (d.resolved ≡ b)
  unfolding resolve_backend
  resolve_backend-named req b {d} parsed named h =
      resolve_requested-named cfg w req u enforce s b {d = d} named (ground arith)

module _ (cfg : Settings) (u : User) (w : Workload) (requested : String) (s : AiDb) where
  -- Where concurrency is enforced, a decision for a subscription backend finds the user with
  -- fewer active jobs there than the grant allows.
  pub resolve_backend-room :
      {d : BackendDecision}
      → (resolve_backend cfg u w requested true s).0 ≡ ok d
      → is_api d.resolved ≡ false
      → count_where (takes_slot u.id d.resolved) s.work.jobs
        < concurrency_in d.resolved (find_policy u.id s.policies)
  unfolding resolve_backend
  resolve_backend-room {d} h subscription = elim (Option-cases (parse_requested requested)) [
    | inl unknown ↦ absurd (ground (arith, unknown))
    | inr (req, parsed) ↦
        resolve_requested-room cfg w req u s {d = d} (ground (arith, parsed)) subscription
  ]
