-- ===== src/Narration/Worker.antt =====
-- One run of the narration worker over a claimed job: `NarrationWorkerService` of
-- narration/application/worker.py, with `update_job`, `fail_job` and `_is_canceled` of
-- narration/adapters/inbound/worker.py. What other modules and other calls do is a parameter: an
-- action that may change the jobs, so that a cancellation may land at each of them.
pub mod Ends
mod Tests
use reading_wiki.Prelude.{
  ℕ, suc, ◌==◌, String, Bool, true, false, not, Option, none, some, List, [], ◌∷◌, length,
  if◌then◌else◌, first_match, text_append, decimal, clip,
}
use reading_wiki.Errors.{Error, Exec, pure, gets, catch, when◌then◌else◌, ◌>>=◌, ◌>>◌}
use reading_wiki.Narration.Jobs.{
  Job, JobDb, Status, done, generating, failed, canceled, Fields, Options, has_id, is_canceled,
  update_job,
}

-- The answers of `_generate_chapter`; `skipped` is any other word.
pub data Answer : Type 0 where
  quota cached generated skipped : Answer

-- The jobs, and the time.
pub record World : Type 0 where
  pub jobs : JobDb
  pub now : ℕ

abbrev pub Run : Type 0 → Type 0
Run = Exec World

-- `NarrationWorkerOperations` less the writes of jobs, the chapters that stand in the options of a
-- job, and the text of an exception.
pub record Operations : Type 1 where
  pub User : Type 0
  pub Number : Type 0
  pub load_user : Option ℕ → Run (Option User)
  pub spend_allowed : User → Bool
  pub sidecar_available : Run Bool
  pub acquire_generation : Run (Unit {0})
  pub generate_chapter : Job → User → Number → Run Answer
  pub chapter_label : Number → String
  pub chapters : Options → List Number
  pub describe : Error → String

abbrev pub row : ℕ → World → Option Job
row i w = first_match (has_id i) w.jobs.jobs

-- ── the writes ──

unfoldable pub update : ℕ → Fields → Run (Unit {0})
unfolding update_job
update i f w = let (r, s) = update_job w.now i f w.jobs in (r, record w { jobs = s })

abbrev pub status_canceled : Option Job → Bool
status_canceled none = false
status_canceled (some j) = is_canceled j.status

unfoldable pub canceled_now : ℕ → Run Bool
unfolding ◌>>=◌
canceled_now i = gets (λ w. status_canceled (row i w))

abbrev pub ending : Status → String → String → Fields
ending status stage progress = record {
  status = some status;
  stage = some (some stage);
  progress = some (some progress);
  error = none;
  options = none;
}

abbrev pub failing : String → Fields
failing error = record {
  status = some failed;
  stage = none;
  progress = none;
  error = some (some (clip 4000 error));
  options = none;
}

unfoldable pub fail_job : ℕ → String → Run (Unit {0})
unfolding update
fail_job i error = update i (failing error)

abbrev pub by_answer : Answer → Run (Unit {0}) → Run (Unit {0}) → Run (Unit {0}) → Run (Unit {0})
by_answer quota stop more skip = stop
by_answer cached stop more skip = more
by_answer generated stop more skip = more
by_answer skipped stop more skip = skip

-- ── the JSON of the progress ──
-- A chapter label has no character that JSON escapes.

abbrev pub entry : String → ℕ → String
entry key n = text_append "\"" (text_append key (text_append "\": " (decimal n)))

abbrev pub counts : ℕ → ℕ → ℕ → String
counts n skips total = text_append (entry "done" n) (
    text_append ", " (text_append (entry "skipped" skips) (text_append ", " (entry "total" total))))

abbrev pub with_word : String → String → String → String
with_word start key word = text_append "{" (
    text_append start
      (text_append ", \"" (text_append key (text_append "\": \"" (text_append word "\"}")))))

abbrev pub progress_of : ℕ → ℕ → ℕ → String
progress_of n skips total = text_append "{" (text_append (counts n skips total) "}")

abbrev pub nothing_done : ℕ → String
nothing_done total =
    text_append "{"
      (text_append (entry "done" 0) (text_append ", " (text_append (entry "total" total) "}")))

-- ── one run ──

module _ (ops : Operations) (job : Job) where
  open ops use {
    User, Number, load_user, spend_allowed, sidecar_available, acquire_generation, generate_chapter,
    chapter_label, chapters, describe,
  }

  -- The loop, and the write after it.
  unfoldable pub narrate : User → ℕ → ℕ → ℕ → List Number → Run (Unit {0})
  unfolding ◌>>=◌
  narrate user total n skips [] = update job.id (ending done "done" (progress_of n skips total))
  narrate user total n skips (number ∷ rest) =
      let more = narrate user total (suc n) skips rest in
      let skip = narrate user total n (suc skips) rest in
      do
        stop ← canceled_now job.id
        when stop
            then update job.id (
                ending canceled "canceled"
                  (with_word (counts n skips total) "stopped_reason" "canceled"))
            else (do
              update job.id (record {
                status = none;
                stage = none;
                progress = some (
                    some
                      (with_word (counts n skips total) "current_chapter" (chapter_label number)));
                error = none;
                options = none;
              })
              answer ← generate_chapter job user number
              by_answer answer
                  (update job.id (
                    ending done "monthly TTS quota reached"
                      (with_word (counts n skips total) "stopped_reason" "quota")))
                  more skip)

  unfoldable pub run : User → Run (Unit {0})
  unfolding ◌>>=◌ narrate
  run user = do
    let numbers = chapters job.options
    let total = length numbers
    when total == 0 then update job.id (ending done "nothing to narrate" (nothing_done 0)) else (do
      early ← canceled_now job.id
      when early then pure tt else (do
        available ← sidecar_available
        when not available
            then fail_job job.id
                "TTS sidecar is unavailable. Start it with: docker compose up -d tts"
            else (do
              late ← canceled_now job.id
              when late then pure tt else (do
                update job.id (record {
                  status = some generating;
                  stage = some (some "narrating");
                  progress = some (some (nothing_done total));
                  error = some none;
                  options = none;
                })
                acquire_generation
                narrate user total 0 0 numbers))))

  unfoldable pub run_for : Option User → Run (Unit {0})
  unfolding run
  run_for none = fail_job job.id "Job has no owner."
  run_for (some user) =
      when spend_allowed user
      then run user
      else fail_job job.id "Verify your email to generate audiobooks."

  unfoldable pub process : Run (Unit {0})
  unfolding ◌>>=◌ run_for
  process =
      catch (do user ← load_user job.user_id; run_for user) (λ e. fail_job job.id (describe e))
