-- ===== src/Work/Worker/Released.antt =====
-- After a run of the worker the job does not run.
use reading_wiki.Prelude.{
  ℕ, ◌≡◌, refl, ap, ◌∙◌, String, Bool, true, false, not, ◌||◌, Option, none, some, arith, inl, inr,
}
use reading_wiki.Errors.{Error, Result, ok, err, Result-cases, catch, rescue, ◌>>=◌}
use reading_wiki.Work.Job.{Job, Kind}
use reading_wiki.Work.Store.{Db}
use reading_wiki.Work.Settlement.{finalize}
use reading_wiki.Work.Transitions.{
  cancel_seen, runs_with_request, overflows, mark_done_if_running, fail_or_retry,
}
use reading_wiki.Work.Worker.{
  Outcome, Handler, returned, unwound, unknown_kind, conclude, attempt, process,
}
use reading_wiki.Work.Worker.Rows.{row, idle, released, failed, Closes, finalize-Closes}
use reading_wiki.Work.Worker.Endings.{mark_done-idle, mark_done-ok, fail_or_retry-Closes}

-- Between the body of the `try` and its handler: the delay of a retry can be computed, and the job
-- is released unless the body raised.
abbrev Tried : ℕ → Result (Unit {0}) × Db → Type 0
Tried i r = (overflows (row i r.1) ≡ false) × ((failed r.0 || released (row i r.1)) ≡ true)

idle-overflows : (o : Option Job) → idle o ≡ true → overflows o ≡ false
idle-overflows none h = refl
idle-overflows (some j) h = ground arith

Closes-Tried : (i : ℕ) (r : Result (Unit {0}) × Db) → Closes i r → Tried i r
Closes-Tried i r h = (idle-overflows (row i r.1) h.0, h.1)

released-idle : (o : Option Job) → released o ≡ true → idle o ≡ true
released-idle none h = refl
released-idle (some j) h = ground arith

abbrev pub pending_cancel : Option Job → Bool
pending_cancel none = false
pending_cancel (some j) = runs_with_request j

-- A cancel check that fired, on a row that does not wait for a child process.
seen-idle : (o : Option Job) → cancel_seen o ≡ true → pending_cancel o ≡ false → idle o ≡ true
seen-idle none seen h = refl
seen-idle (some j) seen h = ground arith

conclude_returned :
    (i : ℕ) (progress : Option String) (s : Db) (done : Bool)
    → (mark_done_if_running i progress s).0 ≡ ok done
    → conclude i (returned progress) s ≡ finalize i done (mark_done_if_running i progress s).1
unfolding conclude ◌>>=◌
conclude_returned i progress s true e = rw e refl
conclude_returned i progress s false e = rw e refl

conclude-Closes :
    (i : ℕ) (o : Outcome) (s : Db)
    → (o ≡ unwound → idle (row i s) ≡ true)
    → Closes i (conclude i o s)
unfolding conclude
conclude-Closes i unwound s rests = finalize-Closes i false s (rests refl)
conclude-Closes i (returned p) s rests =
    let (done, e) = mark_done-ok i p s in
    rw (conclude_returned i p s done e)
      (finalize-Closes i done (mark_done_if_running i p s).1 (mark_done-idle i p s))

abbrev pub unwinds : Result Outcome → Bool
unwinds (ok unwound) = true
unwinds (ok (returned p)) = false
unwinds (err e) = false

told_lem :
    (r : Result Outcome) (seen : Bool)
    → (not (unwinds r) || seen) ≡ true
    → r ≡ ok unwound
    → seen ≡ true
told_lem (ok unwound) seen h e = h
told_lem (ok (returned p)) seen h e = cc
told_lem (err x) seen h e = cc

-- What a handler does on a job: it leaves a row whose retry delay can be computed, and unwinds only
-- where the job was canceled, with no child process left to stop.
pub record Behaves (h : Handler) (job : Job) (s : Db) : Type 0 where
  pub delay : overflows (row job.id (h job s).1) ≡ false
  pub told : (not (unwinds (h job s).0) || cancel_seen (row job.id (h job s).1)) ≡ true
  pub stopped : pending_cancel (row job.id (h job s).1) ≡ false

attempt-some-Tried :
    (h : Handler) (job : Job) (s : Db) → Behaves h job s → Tried job.id (attempt (some h) job s)
unfolding attempt ◌>>=◌
attempt-some-Tried h job s b = elim (Result-cases (h job s).0) [
  | inl (e, f) ↦ rw f (b.delay, refl)
  | inr (o, f) ↦ rw f (
      Closes-Tried job.id (conclude job.id o (h job s).1) (
        conclude-Closes job.id o (h job s).1 (λ same.
          seen-idle (row job.id (h job s).1) (told_lem _ _ b.told (f ∙ ap ok same)) b.stopped)))
]

attempt-Tried :
    (found : Option Handler) (job : Job) (s : Db)
    → overflows (row job.id s) ≡ false
    → ((h : Handler) → found ≡ some h → Behaves h job s)
    → Tried job.id (attempt found job s)
unfolding attempt
attempt-Tried none job s delay behaves =
    Closes-Tried job.id (fail_or_retry job.id (unknown_kind job.kind) s)
      (fail_or_retry-Closes job.id (unknown_kind job.kind) s delay)
attempt-Tried (some h) job s delay behaves = attempt-some-Tried h job s (behaves h refl)

rescue-Closes :
    (i : ℕ) (describe : Error → String) (r : Result (Unit {0})) (s : Db)
    → Tried i (r, s)
    → Closes i (rescue r (λ e. fail_or_retry i (describe e)) s)
rescue-Closes i describe (ok a) s h = (released-idle (row i s) h.1, h.1)
rescue-Closes i describe (err e) s h = fail_or_retry-Closes i (describe e) s h.0

-- After a run of the worker over a job, whatever the handler returned or raised and also where the
-- kind has no handler, the job does not run; unless the run itself raised, it is gone, queued, or
-- its quota is settled. Assumed are a retry delay within the range of an integer, and a handler that
-- leaves it so, unwinds only where the job was canceled, and leaves no row that runs with a
-- cancellation requested.
pub process-Closes :
    (resolve : Kind → Option Handler) (describe : Error → String) (job : Job) (s : Db)
    → overflows (row job.id s) ≡ false
    → ((h : Handler) → resolve job.kind ≡ some h → Behaves h job s)
    → Closes job.id (process resolve describe job s)
unfolding process catch
process-Closes resolve describe job s delay behaves =
    rescue-Closes job.id describe _ _ (attempt-Tried (resolve job.kind) job s delay behaves)
