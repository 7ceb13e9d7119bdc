-- ===== src/Work/Follows.antt =====
-- What one UPDATE may do to a row: the edges of the lifecycle, and what never changes.
use reading_wiki.Prelude.{ℕ, ◌≤◌, ◌≡◌, String, Bool, true, false, Option, is_some, arith}
use reading_wiki.Work.Job.{
  Job, Status, Stage, Backend, queued, running, waiting_provider, done, failed, canceled,
  is_running, is_queued,
}
use reading_wiki.Work.Settlement.{settle, consume_units, unsettled, has_room}
use reading_wiki.Work.Transitions.{
  runs, is_open, with_stage, with_progress, request_cancel, runs_with_request, stop_canceled,
  complete, after_failure,
}
use reading_wiki.Work.Waiting.{waits, park, release_wait}
use reading_wiki.Work.Leases.{touch_lease, cancel_lost, fail_lost, requeue_lost, end_wait}
use reading_wiki.Work.Fallback.{switch_to_api}
use reading_wiki.Work.Claims.{claim}

-- The lifecycle of a job; a row may also stay where it is.
abbrev pub edge : Status → Status → Bool
edge queued queued = true
edge queued running = true
edge queued canceled = true
edge running _ = true
edge waiting_provider waiting_provider = true
edge waiting_provider queued = true
edge waiting_provider canceled = true
edge done done = true
edge failed failed = true
edge canceled canceled = true
edge _ _ = false

-- A job is leased exactly while it runs, and uses no more units than were reserved.
pub record IsSound (j : Job) : Type 0 where
  pub token : is_some j.claim_token ≡ is_running j.status
  pub claimed : is_some j.claimed_at ≡ is_running j.status
  pub within : j.quota_consumed ≤ j.quota_reserved

pub record Follows (j j' : Job) : Type 0 where
  pub id : j'.id ≡ j.id
  pub kind : j'.kind ≡ j.kind
  pub key : j'.idempotency_key ≡ j.idempotency_key
  pub user : j'.user_id ≡ j.user_id
  pub quota_kind : j'.quota_kind ≡ j.quota_kind
  pub reserved : j'.quota_reserved ≡ j.quota_reserved
  pub along : edge j.status j'.status ≡ true
  pub sound : IsSound j → IsSound j'
  -- a settlement is final
  pub settled : j.quota_finalized ≡ true → j'.quota_finalized ≡ true
  pub frozen : j.quota_finalized ≡ true → j'.quota_consumed ≡ j.quota_consumed

abbrev pub Respects : (Job → Bool) → (ℕ → Job → Job) → Type 0
Respects guard set = (now : ℕ) (j : Job) → guard j ≡ true → Follows j (set now j)

pub settle-Respects : (success : Bool) → Respects unsettled (settle success)
unfolding settle
settle-Respects success now j h = ground arith

pub consume-Respects : (units : ℕ) → Respects (has_room units) (consume_units units)
unfolding consume_units
consume-Respects units now j h = ground arith

pub stage-Respects : (stage : Stage) → Respects (λ j. true) (with_stage stage)
unfolding with_stage
stage-Respects stage now j h = ground arith

pub progress-Respects :
    (progress : String) (stage : Option Stage) → Respects (λ j. true) (with_progress progress stage)
unfolding with_progress
progress-Respects progress stage now j h = ground arith

pub cancel-Respects : Respects is_open request_cancel
unfolding request_cancel
cancel-Respects now j h = ground arith

pub stop-Respects : Respects runs_with_request stop_canceled
unfolding stop_canceled
stop-Respects now j h = ground arith

pub complete-Respects : (progress : Option String) → Respects runs (complete progress)
unfolding complete
complete-Respects progress now j h = ground arith

pub failure-Respects : (error : String) → Respects runs (after_failure error)
unfolding after_failure
failure-Respects error now j h = ground arith

pub park-Respects : (error : String) (minutes : ℕ) → Respects runs (park error minutes)
unfolding park
park-Respects error minutes now j h = ground arith

pub release-Respects : Respects waits release_wait
unfolding release_wait
release-Respects now j h = ground arith

pub end_wait-Respects : Respects waits end_wait
unfolding end_wait
end_wait-Respects now j h = ground arith

pub touch-Respects : Respects runs touch_lease
unfolding touch_lease
touch-Respects now j h = ground arith

pub cancel_lost-Respects : Respects runs cancel_lost
unfolding cancel_lost
cancel_lost-Respects now j h = ground arith

pub fail_lost-Respects : Respects runs fail_lost
unfolding fail_lost
fail_lost-Respects now j h = ground arith

pub requeue-Respects : Respects runs requeue_lost
unfolding requeue_lost
requeue-Respects now j h = ground arith

pub claim-Respects : (worker : String) → Respects (λ j. is_queued j.status) (claim worker)
unfolding claim
claim-Respects worker now j h = ground arith

pub switch-Respects :
    (b : Backend) (model : String) (attempts : ℕ) (error : String)
    → Respects runs (switch_to_api b model attempts error)
unfolding switch_to_api
switch-Respects b model attempts error now j h = ground arith

pub Follows-refl : (j : Job) → Follows j j
Follows-refl j = ground arith
