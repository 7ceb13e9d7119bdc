-- ===== src/Work/Preservation/Leases.antt =====
-- Leases, recovery and claims keep every stable property.
use reading_wiki.Prelude.{
  ℕ, ◌≡◌, refl, String, true, Option, none, some, List, [], ◌∷◌, arith, oldest_where,
  oldest_where_holds,
}
use reading_wiki.Errors.{pure, on_option, modify, ◌>>=◌}
use reading_wiki.Work.Job.{Job, Kind, Backend, is_queued}
use reading_wiki.Work.Store.{Db, update_returning}
use reading_wiki.Work.Transitions.{runs, always}
use reading_wiki.Work.Waiting.{waits}
use reading_wiki.Work.Leases.{
  holds_claim, touch_lease, renew_lease, expired, is_stale, wants_cancel, is_stale_canceled,
  cancel_lost, fail_lost, requeue_lost, stale_leases, cancel_stale_lease, fail_stale_lease,
  requeue_stale_lease, is_due, wait_is_over, end_wait, release_due_provider_waits, recover_row,
  recover_rows, recover_stale_leases, Recovery, canceled, failed, requeued, settle_recovery,
  settle_recoveries, run_maintenance,
}
use reading_wiki.Work.Claims.{
  claim, claim_next, next_claimable, is_claimable, allowed_kinds, row_updated_at,
}
use reading_wiki.Work.Follows.{
  Respects, touch-Respects, cancel_lost-Respects, fail_lost-Respects, requeue-Respects,
  end_wait-Respects, claim-Respects,
}
use reading_wiki.Work.Ids.{find-oldest}
use reading_wiki.Work.Stable.{
  IsStable, Keeps, keeps_rules, Keeps-update, update_found, Keeps-bind, Keeps-pure,
}
use reading_wiki.Work.Preservation.{and_left, finalize-Keeps}

holder-Respects : (token : String) → Respects (holds_claim token) touch_lease
holder-Respects token now j h = touch-Respects now j (ground arith)

stale_canceled-Respects : (lease t : ℕ) → Respects (is_stale_canceled lease t) cancel_lost
stale_canceled-Respects lease t now j h = cancel_lost-Respects now j (
    and_left (runs j) (expired lease t j.claimed_at)
      (and_left (is_stale lease t j) (wants_cancel j) h))

stale_fail-Respects : (lease t : ℕ) → Respects (is_stale lease t) fail_lost
stale_fail-Respects lease t now j h =
    fail_lost-Respects now j (and_left (runs j) (expired lease t j.claimed_at) h)

stale_requeue-Respects : (lease t : ℕ) → Respects (is_stale lease t) requeue_lost
stale_requeue-Respects lease t now j h =
    requeue-Respects now j (and_left (runs j) (expired lease t j.claimed_at) h)

chosen :
    (b : Backend) (kinds : List Kind) (s : Db) (j : Job)
    → next_claimable b kinds s ≡ some j
    → oldest_where (is_claimable b kinds s.now) row_updated_at s.jobs ≡ some j
unfolding next_claimable
chosen b kinds s j e = e

claimable_queued :
    (b : Backend) (kinds : List Kind) (s : Db) (j : Job)
    → next_claimable b kinds s ≡ some j
    → is_queued j.status ≡ true
unfolding is_claimable
claimable_queued b kinds s j e =
    let fits =
      oldest_where_holds (is_claimable b kinds s.now) row_updated_at s.jobs j
        (chosen b kinds s j e) in
    ground arith

module _ {P : Db → Type 0} (stable : IsStable P) where
  pub renew-Keeps : (job_id : ℕ) (token : Option String) → Keeps P (renew_lease job_id token)
  unfolding renew_lease
  renew-Keeps job_id none = search keeps_rules
  renew-Keeps job_id (some token) = search (keeps_rules, Keeps-update stable, holder-Respects)

  cancel_stale-Keeps : (lease job_id : ℕ) → Keeps P (cancel_stale_lease lease job_id)
  unfolding cancel_stale_lease
  cancel_stale-Keeps lease job_id =
      search (keeps_rules, Keeps-update stable, stale_canceled-Respects)

  fail_stale-Keeps : (lease job_id : ℕ) → Keeps P (fail_stale_lease lease job_id)
  unfolding fail_stale_lease
  fail_stale-Keeps lease job_id = search (keeps_rules, Keeps-update stable, stale_fail-Respects)

  requeue_stale-Keeps : (lease job_id : ℕ) → Keeps P (requeue_stale_lease lease job_id)
  unfolding requeue_stale_lease
  requeue_stale-Keeps lease job_id =
      search (keeps_rules, Keeps-update stable, stale_requeue-Respects)

  recover_row-Keeps : (lease : ℕ) (row : Job) → Keeps P (recover_row lease row)
  unfolding recover_row
  recover_row-Keeps lease row =
      search (keeps_rules, cancel_stale-Keeps, fail_stale-Keeps, requeue_stale-Keeps) depth 7

  recover_rows-Keeps : (lease : ℕ) (rows : List Job) → Keeps P (recover_rows lease rows)
  unfolding recover_rows
  recover_rows-Keeps lease [] = search keeps_rules
  recover_rows-Keeps lease (row ∷ rows) =
      Keeps-bind (recover_row lease row) _ (recover_row-Keeps lease row) (λ first.
        Keeps-bind (recover_rows lease rows) _ (recover_rows-Keeps lease rows)
          (λ rest. Keeps-pure _))

  stale_leases-Keeps : (lease : ℕ) → Keeps P (stale_leases lease)
  unfolding stale_leases
  stale_leases-Keeps lease = record { at = λ s h. h }

  pub recover-Keeps : (lease : ℕ) → Keeps P (recover_stale_leases lease)
  unfolding recover_stale_leases
  recover-Keeps lease = search (keeps_rules, stale_leases-Keeps, recover_rows-Keeps)

  pub release_due-Keeps : Keeps P release_due_provider_waits
  unfolding release_due_provider_waits modify
  release_due-Keeps = record {
    at = λ s h.
        stable.rows s (wait_is_over s.now) (end_wait s.now)
          (λ j hit. end_wait-Respects s.now j (and_left (waits j) (is_due s.now j.not_before) hit))
          h;
  }

  settle_recovery-Keeps : (r : Recovery) → Keeps P (settle_recovery r)
  unfolding settle_recovery
  settle_recovery-Keeps (canceled i) = search (keeps_rules, finalize-Keeps stable)
  settle_recovery-Keeps (failed i) = search (keeps_rules, finalize-Keeps stable)
  settle_recovery-Keeps (requeued i) = search keeps_rules

  settle_recoveries-Keeps : (rs : List Recovery) → Keeps P (settle_recoveries rs)
  unfolding settle_recoveries
  settle_recoveries-Keeps [] = search keeps_rules
  settle_recoveries-Keeps (r ∷ rs) =
      Keeps-bind (settle_recovery r) _ (settle_recovery-Keeps r)
        (λ done. settle_recoveries-Keeps rs)

  pub maintenance-Keeps : (lease : ℕ) → Keeps P (run_maintenance lease)
  unfolding run_maintenance
  maintenance-Keeps lease =
      search (keeps_rules, release_due-Keeps, recover-Keeps, settle_recoveries-Keeps)

  claim_at :
      (b : Backend) (worker : String) (kinds : List Kind) (s : Db) (o : Option Job)
      → next_claimable b kinds s ≡ o
      → P s
      → P (on_option o (pure none) (λ j. update_returning j.id always (claim worker)) s).1
  unfolding on_option pure
  claim_at b worker kinds s none e h = h
  claim_at b worker kinds s (some j) e h =
      update_found stable s j.id always (claim worker) j
        (λ always_met. claim-Respects worker s.now j (claimable_queued b kinds s j e))
        (find-oldest (is_claimable b kinds s.now) row_updated_at s.jobs j (stable.distinct s h)
          (chosen b kinds s j e))
        h

  pub claim-Keeps :
      (b : Backend) (worker : String) (kinds : Option (List Kind))
      → Keeps P (claim_next b worker kinds)
  unfolding claim_next ◌>>=◌
  claim-Keeps b worker kinds = record {
    at = λ s h.
        claim_at b worker (allowed_kinds kinds) s (next_claimable b (allowed_kinds kinds) s) refl h;
  }
