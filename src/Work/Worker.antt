-- ===== src/Work/Worker.antt =====
-- One run of the generic worker over a claimed job: `WorkWorkerService.process` of
-- work/application/worker.py with the operations that `_process` of work/adapters/inbound/worker.py
-- gives it. Handlers and the texts of exceptions are parameters; the heartbeat is an operation of
-- its own, and logging and audit records are left out.
pub mod Rows
pub mod Endings
pub mod Released
use reading_wiki.Prelude.{ℕ, String, Bool, true, false, Option, none, some, text_append}
use reading_wiki.Errors.{Error, catch, when◌then◌else◌, ◌>>=◌}
use reading_wiki.Work.Job.{
  Job, Kind, codex_illustrate, scrape, codex_build, translate, agy_smoke, openai_codex_smoke,
}
use reading_wiki.Work.Store.{Work}
use reading_wiki.Work.Settlement.{finalize}
use reading_wiki.Work.Transitions.{mark_done_if_running, fail_or_retry}

-- What a handler returns: its progress, or that its cancel check unwound it (`_Canceled`). Any other
-- exception is an error of the action.
pub data Outcome : Type 0 where
  returned : Option String → Outcome
  unwound : Outcome

abbrev pub Handler : Type 0
Handler = Job → Work Outcome

abbrev pub kind_name : Kind → String
kind_name codex_illustrate = "codex_illustrate"
kind_name scrape = "scrape"
kind_name codex_build = "codex_build"
kind_name translate = "translate"
kind_name agy_smoke = "agy_smoke"
kind_name openai_codex_smoke = "openai_codex_smoke"

abbrev pub unknown_kind : Kind → String
unknown_kind k = text_append "Unknown job kind '" (text_append (kind_name k) "'.")

unfoldable pub conclude : ℕ → Outcome → Work (Unit {0})
unfolding ◌>>=◌
conclude job_id unwound = finalize job_id false
conclude job_id (returned progress) = do
  done ← mark_done_if_running job_id progress
  when done then finalize job_id true else finalize job_id false

-- The body of the outer `try`.
unfoldable pub attempt : Option Handler → Job → Work (Unit {0})
unfolding ◌>>=◌ conclude
attempt none job = fail_or_retry job.id (unknown_kind job.kind)
attempt (some handler) job = do outcome ← handler job; conclude job.id outcome

-- `resolve` is `resolve_handler`, with none for a LookupError.
unfoldable pub process : (Kind → Option Handler) → (Error → String) → Job → Work (Unit {0})
unfolding attempt
process resolve describe job =
    catch (attempt (resolve job.kind) job) (λ e. fail_or_retry job.id (describe e))
