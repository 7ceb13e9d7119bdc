-- ===== src/Narration/Worker/Ends.antt =====
-- A run of the narration worker ends its job.
use reading_wiki.Prelude.{
  ℕ, suc, ◌==◌, ◌≡◌, refl, String, Bool, true, false, not, ◌&&◌, ◌||◌, Option, none, some, List, [],
  ◌∷◌, arith, length, if◌then◌else◌, first_match_holds, first_match-map_where, Bool-cases,
  Option-cases, inl, inr,
}
use reading_wiki.Errors.{
  Error, Result, ok, err, Result-cases, pure, catch, rescue, when◌then◌else◌, ◌>>=◌,
}
use reading_wiki.Narration.Jobs.{
  Job, Status, done, canceled, Fields, has_id, is_open, may_write, write_fields, update_job,
}
use reading_wiki.Narration.Worker.{
  Operations, World, Run, Answer, quota, cached, generated, skipped, row, update, canceled_now,
  status_canceled, failing, by_answer, fail_job, narrate, run, run_for, process,
}

-- There is no such job, or it is neither queued nor generating.
abbrev pub closed : Option Job → Bool
closed none = true
closed (some j) = not (is_open j.status)

abbrev failed : Result (Unit {0}) → Bool
failed (ok a) = false
failed (err e) = true

-- The job is closed unless the action raised.
abbrev Ended : ℕ → Result (Unit {0}) × World → Type 0
Ended i r = (failed r.0 || closed (row i r.1)) ≡ true

module _ (i : ℕ) (f : Fields) where
  update-ok : (w : World) → (update i f w).0 ≡ ok tt
  unfolding update update_job ◌>>=◌
  update-ok w = refl

  update-row :
      (w : World)
      → row i (update i f w).1 ≡ elim (row i w) [
        | none ↦ none
        | some j ↦ some (if has_id i j && may_write f j.status then write_fields w.now f j else j)
      ]
  unfolding update update_job ◌>>=◌
  update-row w =
      first_match-map_where (has_id i) (λ j. has_id i j && may_write f j.status)
        (write_fields w.now f) w.jobs.jobs (λ j h. refl)

  row-closed :
      (st : Status) (now : ℕ) (j : Job)
      → f.status ≡ some st
      → is_open st ≡ false
      → has_id i j ≡ true
      → closed (some (if has_id i j && may_write f j.status then write_fields now f j else j))
        ≡ true
  row-closed st now j e ended h = ground (arith, Bool-cases (is_open j.status))

  -- A write of a status that ends the job.
  update-closed :
      (st : Status) (w : World)
      → f.status ≡ some st
      → is_open st ≡ false
      → closed (row i (update i f w).1) ≡ true
  update-closed st w e ended = rw (update-row w) (elim (Option-cases (row i w)) [
    | inl g ↦ rw g refl
    | inr (j, g) ↦
        rw g (row-closed st w.now j e ended (first_match_holds (has_id i) w.jobs.jobs {x = j} g))
  ])

-- ── rules for actions ──

record Ends (i : ℕ) (m : Run (Unit {0})) : Type 0 where
  at : (w : World) → Ended i (m w)

module _ (i : ℕ) where
  Ends-update :
      (f : Fields) (st : Status) → f.status ≡ some st → is_open st ≡ false → Ends i (update i f)
  Ends-update f st e ended = record {
    at = λ w. rw (update-ok i f w) (update-closed i f st w e ended);
  }

  Ends-fail : (error : String) → Ends i (fail_job i error)
  unfolding fail_job
  Ends-fail error = Ends-update (failing error) Status.failed refl refl

  Ends-bind :
      {A : Type 0} (m : Run A) (k : A → Run (Unit {0}))
      → ((a : A) → Ends i (k a))
      → Ends i (m >>= k)
  unfolding ◌>>=◌
  Ends-bind m k ends = record {
    at = λ w. elim (Result-cases (m w).0) [
      | inl (e, f) ↦ rw f refl
      | inr (a, f) ↦ rw f ((ends a).at (m w).1)
    ];
  }

  Ends-by_answer :
      (answer : Answer) (stop more skip : Run (Unit {0}))
      → Ends i stop
      → Ends i more
      → Ends i skip
      → Ends i (by_answer answer stop more skip)
  Ends-by_answer quota stop more skip a b c = a
  Ends-by_answer cached stop more skip a b c = b
  Ends-by_answer generated stop more skip a b c = b
  Ends-by_answer skipped stop more skip a b c = c

  Ends-when :
      (c : Bool) (m n : Run (Unit {0})) → Ends i m → Ends i n → Ends i (when c then m else n)
  unfolding when◌then◌else◌
  Ends-when true m n em en = record { at = λ w. em.at w }
  Ends-when false m n em en = record { at = λ w. en.at w }

  canceled-closed : (o : Option Job) → status_canceled o ≡ true → closed o ≡ true
  canceled-closed none h = refl
  canceled-closed (some j) h = ground arith

  -- A run may stop with no write where the job was found canceled.
  Ends-unless_canceled :
      (n : Run (Unit {0}))
      → Ends i n
      → Ends i (canceled_now i >>= λ stop. when stop then pure tt else n)
  unfolding ◌>>=◌ canceled_now
  Ends-unless_canceled n en = record {
    at = λ w. elim (Bool-cases (status_canceled (row i w))) [
      | inl e ↦ rw e (canceled-closed (row i w) e)
      | inr e ↦ rw e (en.at w)
    ];
  }

module _ (ops : Operations) (job : Job) where
  open ops use {
    User, Number, load_user, spend_allowed, acquire_generation, sidecar_available, generate_chapter,
    chapters,
  }

  narrate-Ends :
      (user : User) (total n skips : ℕ) (numbers : List Number)
      → Ends job.id (narrate ops job user total n skips numbers)
  unfolding narrate
  narrate-Ends user total n skips [] = Ends-update job.id _ done refl refl
  narrate-Ends user total n skips (number ∷ rest) =
      let more = narrate-Ends user total (suc n) skips rest in
      let skip = narrate-Ends user total n (suc skips) rest in
      Ends-bind job.id (canceled_now job.id) _ (λ stop.
        Ends-when job.id stop _ _ (Ends-update job.id _ canceled refl refl) (
          Ends-bind job.id _ _ (λ _.
            Ends-bind job.id (generate_chapter job user number) _ (λ answer.
              Ends-by_answer job.id answer _ _ _ (Ends-update job.id _ done refl refl) more skip))))

  run-Ends : (user : User) → Ends job.id (run ops job user)
  unfolding run
  run-Ends user =
      let numbers = chapters job.options in
      Ends-when job.id (length numbers == 0) _ _ (Ends-update job.id _ done refl refl) (
        Ends-unless_canceled job.id _ (
          Ends-bind job.id sidecar_available _ (λ available.
            Ends-when job.id (not available) _ _ (Ends-fail job.id _) (
              Ends-unless_canceled job.id _ (
                Ends-bind job.id _ _ (λ _.
                  Ends-bind job.id acquire_generation _
                    (λ _. narrate-Ends user (length numbers) 0 0 numbers)))))))

  run_for-Ends : (user : Option User) → Ends job.id (run_for ops job user)
  unfolding run_for
  run_for-Ends none = Ends-fail job.id _
  run_for-Ends (some user) =
      Ends-when job.id (spend_allowed user) _ _ (run-Ends user) (Ends-fail job.id _)

  fail_job-lem :
      (e : String) (w : World)
      → ((fail_job job.id e w).0 ≡ ok tt) × (closed (row job.id (fail_job job.id e w).1) ≡ true)
  unfolding fail_job
  fail_job-lem e w =
      (update-ok job.id (failing e) w, update-closed job.id (failing e) Status.failed w refl refl)

  rescue-closed :
      (r : Result (Unit {0})) (w : World) (handler : Error → String)
      → Ended job.id (r, w)
      → let (r', w') = rescue r (λ e. fail_job job.id (handler e)) w in
        (r' ≡ ok tt) × (closed (row job.id w') ≡ true)
  rescue-closed (ok tt) w handler h = (refl, h)
  rescue-closed (err e) w handler h = fail_job-lem (handler e) w

  -- A run of the narration worker over a job returns, and then the job is neither queued nor
  -- generating: whatever the loading of the user, the sidecar and the synthesis of each chapter
  -- answer or raise, also where the job is canceled or other jobs change at any of them, for any
  -- number of chapters.
  pub process-closed :
      (w : World)
      → ((process ops job w).0 ≡ ok tt) × (closed (row job.id (process ops job w).1) ≡ true)
  unfolding process catch
  process-closed w =
      rescue-closed _ _ ops.describe
        ((Ends-bind job.id (load_user job.user_id) (run_for ops job) run_for-Ends).at w)
