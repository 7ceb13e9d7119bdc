-- ===== src/Work/Store.antt =====
-- The database as the Work module sees it: the `jobs` table, the quota table that settlements
-- refund to, and the clock. A statement is one step, as it runs under its row locks.
use reading_wiki.Prelude.{ℕ, Bool, Option, none, some, List, if◌then◌else◌, first_match, put_first}
use reading_wiki.Errors.{ok, Exec}
use reading_wiki.Identity.Quota.Table.{Usage}
use reading_wiki.Identity.Quota.Service.{QuotaExec}
use reading_wiki.Work.Job.{Job, has_id}

pub record Db : Type 0 where
  pub jobs : List Job
  -- the sequence behind BIGSERIAL
  pub next_id : ℕ
  pub usage : List Usage
  pub now : ℕ
  pub month : ℕ

abbrev pub Work : Type 0 → Type 0
Work = Exec Db

abbrev pub find : ℕ → List Job → Option Job
find i = first_match (has_id i)

abbrev pub put : ℕ → Job → List Job → List Job
put i = put_first (has_id i)

-- `UPDATE jobs SET … WHERE id=$1 AND guard RETURNING …`: the row after the update, if one was
-- updated. `id` is the primary key, so there is one row at most.
abbrev pub updated : Option Job → (Job → Bool) → (Job → Job) → Option Job
updated none guard set = none
updated (some j) guard set = if guard j then some (set j) else none

abbrev pub written : ℕ → Option Job → List Job → List Job
written i none jobs = jobs
written i (some j) jobs = put i j jobs

unfoldable pub update_returning : ℕ → (Job → Bool) → (ℕ → Job → Job) → Work (Option Job)
update_returning i guard set s =
    let row = updated (find i s.jobs) guard (set s.now) in
    (ok row, record s { jobs = written i row s.jobs })

-- A call of the identity module on the same connection.
unfoldable pub with_usage : {A : Type 0} → (ℕ → QuotaExec A) → Work A
with_usage m s = let (r, t) = m s.month s.usage in (r, record s { usage = t })
