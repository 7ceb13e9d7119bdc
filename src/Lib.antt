-- ===== src/Lib.antt =====
-- The core of Reading-Wiki, a self-hosted reader for web novels: the durable background jobs and
-- the reservations of quota that they settle, the monthly quotas, the administration of accounts
-- and the rate limits, the policy that decides on which AI backend work may run, the catalog of
-- novels and who may change it, what a reader may see of a novel and the texts that readers edit
-- and offer, the chunks, the lexical search and the fused search of the codex, the jobs of
-- narration, and how an imported book is cut into numbered chapters. The rest of the program
-- (scraping, extraction, translation, speech) schedules jobs, runs as their handlers, or reads
-- tables.
--
-- Parts and files, with the Python files under novelwiki/modules:
--
-- - Errors: the exceptions of novelwiki/kernel/errors.py and actions over a state that may raise.
--   An action is a function from the state to a result and a state; what was written before a
--   raise stays written, and `atomically` is a transaction, which rolls back.
-- - Identity.Principal, Identity.Quota: identity/public.py, identity/application/quota.py and
--   identity/adapters/outbound/postgres_quota.py. Kinds has the quota kinds, Table the rows and
--   their atomic reservation and refund, Service the service, Cells, Limits and Requests its
--   theorems.
-- - Identity.Admin: `update_user` and `delete_user` of identity/application/admin.py over
--   identity/adapters/outbound/postgres_admin.py. Admins has its theorem. The callback that
--   revokes AI jobs is a parameter.
-- - Identity.RateLimits: identity/adapters/outbound/rate_limit.py. Windows has its theorem.
-- - Work: the jobs table. Job is a row, Store the database and `UPDATE ... RETURNING` by id,
--   Settlement the settlement of quota (work/adapters/outbound/transactions.py,
--   novelwiki/workflows/finalize_job_quota.py), Transitions and Waiting the state changes of
--   work/adapters/outbound/postgres.py, Leases the leases and the maintenance
--   (work/adapters/outbound/worker_state.py, work/adapters/inbound/worker.py), Fallback the way
--   back to the API, Claims the claim of work/adapters/outbound/claims.py, Create `create_job`,
--   Service the ownership checks of work/application/service.py. Follows says how a row may
--   change, Stable what a property of the database has to be closed under, Preservation that
--   every operation keeps such a property; Operations gathers the operations in a step function
--   and runs, and Consistency, History, Refunds and Once have the properties.
-- - Ai: ai_execution/domain/backend.py and ai_execution/adapters/outbound/policy.py. Backend has
--   workloads and decisions, Settings the switches and models, Grants the tables, Resolve
--   `resolve_backend` and `reauthorize_job`, Admin the changes of grants and the cancellation of
--   revoked jobs. Slots is the ceiling on concurrent reads of
--   ai_execution/adapters/outbound/limits.py.
-- - Catalog: Tags is catalog/domain/tags.py, Novels the tables and statements of
--   catalog/adapters/outbound/postgres.py with catalog/domain/policies.py, Suggestions its
--   statements on tag suggestions, Access the service of catalog/application/access.py and the
--   tag suggestions of catalog/application/migration.py and transactions.py; its children say
--   which novels a call writes, and Calls has the theorems on sequences of calls.
-- - Reading: Tables has the tables of progress and bookmarks and their statements
--   (reading/adapters/outbound/postgres.py), Progress the service of
--   reading/application/services.py; Openings are sequences of its calls, Ceiling the bounds of
--   the ceiling against spoilers, Spoilers the two together. Overlays has the statements on
--   overlays and contributions, Edits the edits of reading/application/migration.py, Sequences
--   runs of them; Anchors and Anchored are about overlays, Contributions, Decided and Accepting
--   about contributions.
-- - Reading.Ingestion: reading/adapters/outbound/ingestion.py, the chapters that a scrape or an
--   import writes, at the columns of `Chapter`. Ingested has its theorem.
-- - Codex.Fuse: codex/adapters/outbound/retrieval/fuse.py, and what `hybrid_search` of
--   codex/adapters/outbound/retrieval/tools.py does with it; the floating point scores are a
--   parameter with the laws of an order. Order, Counts, Quotas and Results have the proofs.
-- - Acquisition: imported books. Document has the blocks of acquisition/domain/document.py;
--   Boundaries, Titles, Passages, Segments and Refine are
--   acquisition/adapters/outbound/importer/segment.py, where the compiled patterns and the
--   replies of the language model are parameters; Numbers is the numbering of
--   acquisition/adapters/outbound/importer/commit.py. Boundaries.Ordered, Segments.Partition,
--   Segments.Numbered, Refine.Kept and Numbers.Increase have the proofs. The code has floating
--   point numbers of chapters. In the plan and its refinement they are thousandths from 0 on: a
--   number of a title or a reply with more decimals or below 0 is outside the model. In the
--   commit, which reads a plan that may have been edited, numbers and offsets are signed
--   ten-thousandths (Integers), on which `round(…, 4)` is the identity: a number with more
--   decimals, or so large that a float loses the step of 0.001, is outside the model.
-- - Work.Worker: work/application/worker.py, one run of the generic worker over the operations of
--   Work; the handlers and the texts of exceptions are parameters. Rows, Endings and Released
--   have the proofs.
-- - Narration.Jobs: narration/adapters/outbound/worker_state.py with the sets of statuses of
--   narration/adapters/inbound/worker.py. Terminal has its theorem.
-- - Narration.Worker: narration/application/worker.py over these jobs, with the writes of
--   narration/adapters/inbound/worker.py; the synthesis of a chapter and what runs beside it are
--   parameters. Ends has its theorem.
-- - Codex.Chunks: codex/adapters/outbound/ingest/chunk.py. Pieces cuts a text, Cover says what
--   chunks cover, Rounds that the loop ends with it.
-- - Codex.Bm25: codex/adapters/outbound/retrieval/bm25.py over a search library, which is a
--   parameter. Valid has the invariant of a manager, Places and Prefixes the index of a ceiling,
--   Search the search.
--
-- The parts meet where the program does: a settlement of Work calls the quota table of Identity
-- on the same connection, in one transaction (`with_usage`); the policy counts and cancels jobs
-- of Work (`with_work`); `create_job` looks a grant up through a function that it is given;
-- Reading asks the catalog through `readable` and `editable`, which the test of Spoilers fills
-- with the catalog's own.
--
-- Numbers are natural, but for those of the commit of an import: units, limits and versions are
-- never negative, and subtraction stops at zero where the source takes a maximum with zero. Times
-- are seconds. The delay before a retry is computed in PostgreSQL's 32-bit integers, and an
-- overflow is an error. Texts of messages are left out; the texts of a job's stage are
-- constructors. JSON columns hold the text of the document. Columns that no modelled operation
-- reads, such as the times of a row, are left out. A statement is one step, since it runs under
-- its row locks, and a sequence of operations is any interleaving of such steps with time that
-- passes; multi-statement calls run whole. Chapter numbers are only compared, so that a number
-- stands for its place in their order; a number that a caller sends may also be infinite or not a
-- number. The loop of the chunking runs on fuel, two rounds for each piece and one more, which is
-- proved to be enough; all other recursion is on lists and numbers.
--
-- Not modelled: logging and audit records, views that only read, the creation and deletion of
-- novels, translation on demand, the asyncio loops and heartbeats, the handlers of the jobs, and
-- the parts of the program named above that lie outside these modules.
mod Prelude
pub mod Errors
pub mod Identity
pub mod Work
pub mod Reading
pub mod Narration
pub mod Ai
pub mod Catalog
pub mod Codex
pub mod Acquisition
