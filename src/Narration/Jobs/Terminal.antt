-- ===== src/Narration/Jobs/Terminal.antt =====
-- A job that has ended stays as it ended.
use reading_wiki.Prelude.{
  ℕ, ◌≡◌, refl, String, Bool, true, false, not, ◌||◌, Option, none, some, List, [], ◌∷◌, ltb, arith,
  All, All-append, All-map_where, Bool-cases, Option-cases, inl, inr, oldest_where,
  oldest_where_holds, All-oldest_where, subst, if◌then◌else◌,
}
use reading_wiki.Narration.Jobs.{
  Status, queued, generating, done, failed, canceled, Options, Job, JobDb, is_open, is_queued,
  is_canceled, has_id, updated, existing, Fields, may_write, write_fields, create_job, update_job,
  cancel_job, requeue_interrupted, claim_next,
}

abbrev pub same_status : Status → Status → Bool
same_status queued queued = true
same_status generating generating = true
same_status done done = true
same_status failed failed = true
same_status canceled canceled = true
same_status _ _ = false

-- A row of the id has the status.
abbrev pub HasStatus : ℕ → Status → Job → Type 0
HasStatus i st j = (not (has_id i j) || same_status j.status st) ≡ true

abbrev pub AllHave : ℕ → Status → JobDb → Type 0
AllHave i st s = (ltb i s.next_id ≡ true) × All (HasStatus i st) s.jobs

-- The calls, each at its time.
pub data Call : Type 0 where
  create : ℕ → ℕ → Option ℕ → String → String → Options → Call
  update : ℕ → ℕ → Fields → Call
  cancel : ℕ → ℕ → Call
  requeue : Call
  claim_one : ℕ → Call

unfoldable pub call : Call → JobDb → JobDb
call (create now novel user scope voice options) s =
    (create_job is_open now novel user scope voice options s).1
call (update now i f) s = (update_job now i f s).1
call (cancel now i) s = (cancel_job now i s).1
call requeue s = (requeue_interrupted s).1
call (claim_one now) s = (claim_next is_queued now s).1

unfoldable pub call_all : List Call → JobDb → JobDb
unfolding call
call_all [] s = s
call_all (c ∷ calls) s = call_all calls (call c s)

open_ended : (a st : Status) → is_open st ≡ false → same_status a st ≡ true → is_open a ≡ false
open_ended done st ended same = refl
open_ended failed st ended same = refl
open_ended canceled st ended same = refl
open_ended queued queued ended same = ground (arith, ended, same)
open_ended queued generating ended same = ground (arith, ended, same)
open_ended queued done ended same = ground (arith, ended, same)
open_ended queued failed ended same = ground (arith, ended, same)
open_ended queued canceled ended same = ground (arith, ended, same)
open_ended generating queued ended same = ground (arith, ended, same)
open_ended generating generating ended same = ground (arith, ended, same)
open_ended generating done ended same = ground (arith, ended, same)
open_ended generating failed ended same = ground (arith, ended, same)
open_ended generating canceled ended same = ground (arith, ended, same)

-- Only a cancellation may be written to a job that has ended, and only where it was canceled.
steady :
    (u a st : Status)
    → is_open a ≡ false
    → same_status a st ≡ true
    → (if is_canceled u then is_open a || is_canceled a else is_open a) ≡ true
    → same_status u st ≡ true
steady queued a st ended same may = absurd (ground (arith, ended, may))
steady generating a st ended same may = absurd (ground (arith, ended, may))
steady done a st ended same may = absurd (ground (arith, ended, may))
steady failed a st ended same may = absurd (ground (arith, ended, may))
steady canceled canceled st ended same may = same
steady canceled queued st ended same may = absurd (ground (arith, ended, may))
steady canceled generating st ended same may = absurd (ground (arith, ended, may))
steady canceled done st ended same may = absurd (ground (arith, ended, may))
steady canceled failed st ended same may = absurd (ground (arith, ended, may))

written_status :
    (now : ℕ) (f : Fields) (j : Job) (st : Status)
    → is_open st ≡ false
    → same_status j.status st ≡ true
    → may_write f j.status ≡ true
    → same_status (write_fields now f j).status st ≡ true
written_status now f j st ended same may =
    let closed = open_ended j.status st ended same in
    elim (Option-cases f.status) [
      | inl e ↦ rw e same
      | inr (u, e) ↦ rw e (
          steady u j.status st closed same (
            subst
              (λ v.
                (if elim v [ none ↦ false | some s ↦ is_canceled s ]
                  then is_open j.status || is_canceled j.status
                  else is_open j.status)
                ≡ true)
              e may))
    ]

module _ (i : ℕ) (st : Status) (ended : is_open st ≡ false) (s : JobDb) (h : AllHave i st s) where
  create-AllHave :
      (now novel : ℕ) (user : Option ℕ) (scope voice : String) (options : Options)
      → AllHave i st (create_job is_open now novel user scope voice options s).1
  unfolding create_job
  create-AllHave now novel user scope voice options =
      elim (Option-cases (existing is_open options s)) [
        | inr (j, e) ↦ rw e h
        | inl e ↦ rw e (
          ground (arith, h.0),
          All-append (HasStatus i st) s.jobs _ h.1 (ground (arith, h.0), tt),
        )
      ]

  update-AllHave : (now k : ℕ) (f : Fields) → AllHave i st (update_job now k f s).1
  unfolding update_job
  update-AllHave now k f = (
    h.0,
    All-map_where (HasStatus i st) _ _ s.jobs
        (λ j e own. elim (Bool-cases (has_id i j)) [
          | inr apart ↦ rw apart refl
          | inl own_id ↦ ground (
            arith,
            own_id,
            written_status now f j st ended (ground (arith, own, own_id)) (ground (arith, e)),
          )
        ])
        h.1,
  )

  cancel-AllHave : (now k : ℕ) → AllHave i st (cancel_job now k s).1
  unfolding cancel_job
  cancel-AllHave now k = (
    h.0,
    All-map_where (HasStatus i st) _ _ s.jobs
        (λ j e own. ground (arith, open_ended j.status st ended, own, e)) h.1,
  )

  requeue-AllHave : AllHave i st (requeue_interrupted s).1
  unfolding requeue_interrupted
  requeue-AllHave = (
    h.0,
    All-map_where (HasStatus i st) _ _ s.jobs
        (λ j e own. ground (arith, open_ended j.status st ended, own, e)) h.1,
  )

  unclaimed :
      (j : Job)
      → oldest_where (λ x. is_queued x.status) updated s.jobs ≡ some j
      → has_id i j ≡ false
  unclaimed j e = elim (Bool-cases (has_id i j)) [
    | inr apart ↦ apart
    | inl own ↦ absurd (
        ground (
          arith,
          oldest_where_holds (λ x. is_queued x.status) updated s.jobs j e,
          open_ended j.status st ended (
              ground (
                arith,
                own,
                All-oldest_where (λ x. is_queued x.status) updated (HasStatus i st) s.jobs j h.1 e,
              )),
        ))
  ]

  claim-AllHave : (now : ℕ) → AllHave i st (claim_next is_queued now s).1
  unfolding claim_next
  claim-AllHave now = elim (Option-cases (oldest_where (λ j. is_queued j.status) updated s.jobs)) [
    | inl e ↦ rw e h
    | inr (j, e) ↦ rw e (
      h.0,
      All-map_where (HasStatus i st) _ _ s.jobs (λ x same own. ground (arith, same, unclaimed j e))
          h.1,
    )
  ]

module _ (i : ℕ) (st : Status) (ended : is_open st ≡ false) where
  call-AllHave : (c : Call) (s : JobDb) → AllHave i st s → AllHave i st (call c s)
  unfolding call
  call-AllHave (create now novel user scope voice options) s h =
      create-AllHave i st ended s h now novel user scope voice options
  call-AllHave (update now k f) s h = update-AllHave i st ended s h now k f
  call-AllHave (cancel now k) s h = cancel-AllHave i st ended s h now k
  call-AllHave requeue s h = requeue-AllHave i st ended s h
  call-AllHave (claim_one now) s h = claim-AllHave i st ended s h now

  -- A job that is done, failed or canceled is never brought back: where the rows of its id have that
  -- status, and the id was given out, they have it after any calls, late writes, cancellations,
  -- claims and restarts included.
  pub call_all-AllHave :
      (calls : List Call) (s : JobDb) → AllHave i st s → AllHave i st (call_all calls s)
  unfolding call_all
  call_all-AllHave [] s h = h
  call_all-AllHave (c ∷ calls) s h = call_all-AllHave calls (call c s) (call-AllHave c s h)
