-- ===== src/Ai/Admin.antt =====
-- The changes of grants that admins make: `upsert_policy`, `delete_policy` and
-- `cancel_revoked_jobs` of ai_execution/adapters/outbound/policy.py. The audit records are left
-- out.
pub mod Chains
pub mod Changes
pub mod Versions
use reading_wiki.Prelude.{
  ℕ, ◌+◌, String, Bool, true, false, not, ◌&&◌, ◌||◌, Option, none, some, List, [], ◌∷◌, ◌++◌, leb,
  ◌==◌, if◌then◌else◌, get_or, is_some, select, put_first, str_eq, truthy,
}
use reading_wiki.Errors.{
  ok, pure, gets, atomically, raise_if, or_raise, when◌then◌else◌, on_option, ◌>>=◌, ◌>>◌,
  validation_failed, not_found,
}
use reading_wiki.Work.Job.{Job, Kind, Backend, same_kind, is_active, same_backend}
use reading_wiki.Work.Transitions.{cancel_job}
use reading_wiki.Ai.Backend.{Workload, parse_workload, parse_backend, member}
use reading_wiki.Ai.Grants.{
  Policy, AiDb, AiExec, enabled, workloads, of_user, find_policy, get_policy, is_requester,
  with_work,
}

-- `values`: what the request leaves out is `none`; a missing list is empty.
pub record Values : Type 0 where
  pub agy_enabled : Option Bool
  pub openai_codex_enabled : Option Bool
  pub default_backend : Option String
  pub agy_workloads : List String
  pub openai_codex_workloads : List String
  pub fallback_to_api : Option Bool
  pub max_concurrent_agy_jobs : Option ℕ
  pub max_concurrent_openai_codex_jobs : Option ℕ
  pub notes : Option String

-- Some text names no workload.
unfoldable pub any_unknown : List String → Bool
any_unknown [] = false
any_unknown (t ∷ ts) = not (is_some (parse_workload t)) || any_unknown ts

abbrev pub names : Workload → Option Workload → Bool
names w o = elim o [ none ↦ false | some x ↦ member w (x ∷ []) ]

unfoldable pub named_in : List String → Workload → Bool
named_in [] w = false
named_in (t ∷ ts) w = names w (parse_workload t) || named_in ts w

-- `sorted(set(texts))`, where every text names a workload: those named, in the order of their
-- texts.
unfoldable pub sorted_set : List String → List Workload
sorted_set ts = select (named_in ts) (
    Workload.ask ∷ Workload.codex_extract ∷ Workload.ocr_pages ∷ Workload.profile_synthesis
    ∷ Workload.segment_import ∷ Workload.translate_batch ∷ [])

abbrev pub default_allowed : Backend → Bool → Bool → Bool
default_allowed Backend.api agy openai = true
default_allowed Backend.agy agy openai = agy
default_allowed Backend.openai_codex agy openai = openai

abbrev pub in_bounds : ℕ → Bool
in_bounds n = leb 1 n && leb n 4

-- `values.get("notes") or None`
abbrev pub nonempty : Option String → Option String
nonempty none = none
nonempty (some t) = if truthy t then some t else none

abbrev pub user_exists : ℕ → List ℕ → Bool
user_exists user [] = false
user_exists user (x ∷ xs) = (x == user) || user_exists user xs

-- The row that a first grant inserts.
unfoldable pub policy_row : ℕ → Values → Backend → ℕ → Policy
policy_row user v default admin = record {
  user_id = user;
  agy_enabled = get_or v.agy_enabled false;
  openai_codex_enabled = get_or v.openai_codex_enabled false;
  default_backend = default;
  agy_workloads = sorted_set v.agy_workloads;
  openai_codex_workloads = sorted_set v.openai_codex_workloads;
  fallback_to_api = get_or v.fallback_to_api false;
  max_concurrent_agy_jobs = get_or v.max_concurrent_agy_jobs 1;
  max_concurrent_openai_codex_jobs = get_or v.max_concurrent_openai_codex_jobs 1;
  policy_version = 1;
  notes = nonempty v.notes;
  granted_by = some admin;
}

abbrev pub next_version : Option Policy → ℕ
next_version none = 1
next_version (some p) = p.policy_version + 1

abbrev pub stored : Option Policy → Policy → List Policy → List Policy
stored none row ps = ps ++ (row ∷ [])
stored (some p) row ps = put_first (of_user row.user_id) row ps

-- `INSERT … ON CONFLICT (user_id) DO UPDATE … RETURNING *`, beside the row that was there.
unfoldable pub insert_or_update : Policy → AiExec (Option Policy × Policy)
insert_or_update fresh s =
    let previous = find_policy fresh.user_id s.policies in
    let row = record fresh { policy_version = next_version previous } in
    (ok (previous, row), record s { policies = stored previous row s.policies })

abbrev pub removal_covers : Workload → Option (List Workload) → Bool
removal_covers w none = true
removal_covers w (some removed) = member w removed

abbrev pub codex_kinds : Backend → List Kind
codex_kinds Backend.openai_codex = Kind.codex_build ∷ Kind.codex_illustrate ∷ []
codex_kinds _ = Kind.codex_build ∷ []

-- `kinds` of `cancel_revoked_jobs`; `none` is every workload.
unfoldable pub revoked_kinds : Option (List Workload) → Backend → List Kind
revoked_kinds removed b =
    (if removal_covers Workload.translate_batch removed then Kind.translate ∷ [] else [])
    ++ (if removal_covers Workload.codex_extract removed then codex_kinds b else [])

abbrev pub kind_in : Kind → List Kind → Bool
kind_in k [] = false
kind_in k (x ∷ xs) = same_kind k x || kind_in k xs

abbrev pub is_revoked : ℕ → List Kind → Backend → Job → Bool
is_revoked user kinds b j =
    is_requester user j.user_id
    && (same_backend j.execution_backend b && (kind_in j.kind kinds && is_active j.status))

unfoldable pub ids : List Job → List ℕ
ids [] = []
ids (j ∷ js) = j.id ∷ ids js

-- `revoked_job_ids` of work/adapters/outbound/worker_state.py
unfoldable pub revoked_job_ids : ℕ → List Kind → Backend → AiExec (List ℕ)
unfolding ◌>>=◌
revoked_job_ids user kinds b = gets (λ s. ids (select (is_revoked user kinds b) s.work.jobs))

abbrev pub count_if : Bool → ℕ → ℕ
count_if c n = if c then n + 1 else n

unfoldable pub cancel_each : List ℕ → ℕ → AiExec ℕ
unfolding ◌>>=◌
cancel_each [] changed = pure changed
cancel_each (i ∷ is) changed = do
  canceled ← with_work (cancel_job i)
  cancel_each is (count_if canceled changed)

unfoldable pub cancel_revoked_jobs : ℕ → Option (List Workload) → Backend → AiExec ℕ
unfolding ◌>>=◌
cancel_revoked_jobs user removed b = do
  rows ← revoked_job_ids user (revoked_kinds removed b) b
  cancel_each rows 0

-- `set(previous) - set(current)`
unfoldable pub difference : List Workload → List Workload → List Workload
difference previous current = select (λ w. not (member w current)) previous

abbrev pub nothing_removed : List Workload → Bool
nothing_removed [] = true
nothing_removed (w ∷ ws) = false

-- The jobs of one backend, after its grant changed from `previous` to `row`.
unfoldable pub revoke_backend : ℕ → Policy → Policy → Backend → AiExec (Unit {0})
unfolding ◌>>=◌
revoke_backend user previous row b =
    let removed = difference (workloads b previous) (workloads b row) in
    when enabled b row && nothing_removed removed
    then pure tt
    else (do _ ← cancel_revoked_jobs user (if enabled b row then some removed else none) b; pure tt)

unfoldable pub check_values : Values → AiExec Backend
unfolding ◌>>=◌
check_values v = do
  raise_if (any_unknown v.agy_workloads || any_unknown v.openai_codex_workloads) validation_failed
  default ← or_raise (parse_backend (get_or v.default_backend "api")) validation_failed
  raise_if
      (not (
        default_allowed default (get_or v.agy_enabled false) (get_or v.openai_codex_enabled false)))
      validation_failed
  raise_if (not (in_bounds (get_or v.max_concurrent_agy_jobs 1))) validation_failed
  raise_if (not (in_bounds (get_or v.max_concurrent_openai_codex_jobs 1))) validation_failed
  pure default

-- The transaction of `upsert_policy`.
unfoldable pub write_policy : Policy → AiExec (Option Policy × Policy)
unfolding ◌>>=◌
write_policy fresh = atomically (do
  exists ← gets (λ s. user_exists fresh.user_id s.users)
  raise_if (not exists) not_found
  insert_or_update fresh)

-- The jobs of both backends, where there was a grant before.
unfoldable pub revoke_changed : ℕ → Option Policy → Policy → AiExec (Unit {0})
unfolding ◌>>=◌
revoke_changed user previous row =
    on_option previous (pure tt) (λ p. do
      revoke_backend user p row Backend.agy
      revoke_backend user p row Backend.openai_codex)

-- `upsert_policy` from the transaction on.
unfoldable pub store_policy : Policy → AiExec Policy
unfolding ◌>>=◌
store_policy fresh = do
  (previous, row) ← write_policy fresh
  revoke_changed fresh.user_id previous row
  pure row

unfoldable pub upsert_policy : ℕ → Values → ℕ → AiExec Policy
unfolding ◌>>=◌
upsert_policy user v admin = do
  default ← check_values v
  store_policy (policy_row user v default admin)

-- `DELETE FROM user_ai_backend_policies WHERE user_id=$1`
unfoldable pub delete_row : ℕ → AiExec Bool
delete_row user s = (
  ok (is_some (find_policy user s.policies)),
  record s { policies = select (λ p. not (of_user user p)) s.policies },
)

-- The jobs of both backends, where a row was deleted.
unfoldable pub cancel_deleted : ℕ → Bool → AiExec Bool
unfolding ◌>>=◌
cancel_deleted user deleted =
    when deleted
    then (do
      _ ← cancel_revoked_jobs user none Backend.agy
      _ ← cancel_revoked_jobs user none Backend.openai_codex
      pure true)
    else pure false

unfoldable pub delete_policy : ℕ → AiExec Bool
unfolding ◌>>=◌ delete_row
delete_policy user = do deleted ← delete_row user; cancel_deleted user deleted
