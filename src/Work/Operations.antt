-- ===== src/Work/Operations.antt =====
-- The statements of the Work module as one type, and what every sequence of them keeps.
use reading_wiki.Prelude.{ℕ, ◌+◌, String, Bool, Option, List, [], ◌∷◌}
use reading_wiki.Work.Job.{Kind, Stage, Backend}
use reading_wiki.Work.Store.{Db}
use reading_wiki.Work.Settlement.{finalize, increment_quota_consumed}
use reading_wiki.Work.Transitions.{
  set_stage, set_progress, cancel_job, mark_canceled_if_running, mark_done_if_running,
  fail_or_retry,
}
use reading_wiki.Work.Waiting.{wait_for_provider, retry_waiting}
use reading_wiki.Work.Leases.{renew_lease, run_maintenance}
use reading_wiki.Work.Fallback.{fallback_to_api}
use reading_wiki.Work.Claims.{claim_next}
use reading_wiki.Work.Create.{Submission, create_job}
use reading_wiki.Work.Stable.{IsStable}
use reading_wiki.Work.Preservation.{
  finalize-Keeps, increment-Keeps, set_stage-Keeps, set_progress-Keeps, cancel-Keeps,
  mark_canceled-Keeps, mark_done-Keeps, fail_or_retry-Keeps, wait-Keeps, fallback-Keeps,
  retry_waiting-Keeps,
}
use reading_wiki.Work.Preservation.Leases.{renew-Keeps, maintenance-Keeps, claim-Keeps}
use reading_wiki.Work.Preservation.Create.{create-Keeps}
use reading_wiki.Work.Consistency.{IsConsistent, IsConsistent-IsStable}

-- `elapse` is time that passes between two statements.
pub data Operation : Type 0 where
  create : ℕ → String → Submission → Operation
  claim : Backend → String → Option (List Kind) → Operation
  renew : ℕ → Option String → Operation
  stage : ℕ → Stage → Operation
  progress : ℕ → String → Option Stage → Operation
  cancel stop_canceled : ℕ → Operation
  complete : ℕ → Option String → Operation
  fail : ℕ → String → Operation
  wait : ℕ → String → ℕ → Operation
  retry : Option ℕ → Option Backend → Operation
  fall_back : Backend → ℕ → String → ℕ → String → Operation
  maintain : ℕ → Operation
  settle : ℕ → Bool → Operation
  consume : ℕ → ℕ → Operation
  elapse : ℕ → Operation

-- The state after the call, whether it returned or raised.
unfoldable pub step : Operation → Db → Db
step (create attempts kind r) s = (create_job attempts kind r s).1
step (claim b worker kinds) s = (claim_next b worker kinds s).1
step (renew i token) s = (renew_lease i token s).1
step (stage i text) s = (set_stage i text s).1
step (progress i text at_stage) s = (set_progress i text at_stage s).1
step (cancel i) s = (cancel_job i s).1
step (stop_canceled i) s = (mark_canceled_if_running i s).1
step (complete i text) s = (mark_done_if_running i text s).1
step (fail i error) s = (fail_or_retry i error s).1
step (wait i error minutes) s = (wait_for_provider i error minutes s).1
step (retry i b) s = (retry_waiting i b s).1
step (fall_back b i model attempts error) s = (fallback_to_api b i model attempts error s).1
step (maintain lease) s = (run_maintenance lease s).1
step (settle i success) s = (finalize i success s).1
step (consume i units) s = (increment_quota_consumed i units s).1
step (elapse seconds) s = record s { now = s.now + seconds }

unfoldable pub run : List Operation → Db → Db
run [] s = s
run (o ∷ os) s = run os (step o s)

module _ {P : Db → Type 0} (stable : IsStable P) where
  step-keeps : (o : Operation) (s : Db) → P s → P (step o s)
  unfolding step
  step-keeps (create attempts kind r) s h = (create-Keeps stable attempts kind r).at s h
  step-keeps (claim b worker kinds) s h = (claim-Keeps stable b worker kinds).at s h
  step-keeps (renew i token) s h = (renew-Keeps stable i token).at s h
  step-keeps (stage i text) s h = (set_stage-Keeps stable i text).at s h
  step-keeps (progress i text at_stage) s h = (set_progress-Keeps stable i text at_stage).at s h
  step-keeps (cancel i) s h = (cancel-Keeps stable i).at s h
  step-keeps (stop_canceled i) s h = (mark_canceled-Keeps stable i).at s h
  step-keeps (complete i text) s h = (mark_done-Keeps stable i text).at s h
  step-keeps (fail i error) s h = (fail_or_retry-Keeps stable i error).at s h
  step-keeps (wait i error minutes) s h = (wait-Keeps stable i error minutes).at s h
  step-keeps (retry i b) s h = (retry_waiting-Keeps stable i b).at s h
  step-keeps (fall_back b i model attempts error) s h =
      (fallback-Keeps stable b i model attempts error).at s h
  step-keeps (maintain lease) s h = (maintenance-Keeps stable lease).at s h
  step-keeps (settle i success) s h = (finalize-Keeps stable i success).at s h
  step-keeps (consume i units) s h = (increment-Keeps stable i units).at s h
  step-keeps (elapse seconds) s h = stable.time s seconds h

  pub run-keeps : (os : List Operation) (s : Db) → P s → P (run os s)
  unfolding run
  run-keeps [] s h = h
  run-keeps (o ∷ os) s h = run-keeps os (step o s) (step-keeps o s h)

-- From a consistent database, every sequence of operations leads to a consistent one: ids stay
-- distinct, a job holds a lease exactly while it runs, consumed units stay within the reservation,
-- and no two active jobs of one kind share an idempotency key.
pub run-IsConsistent : (os : List Operation) (s : Db) → IsConsistent s → IsConsistent (run os s)
run-IsConsistent os s h = run-keeps IsConsistent-IsStable os s h
