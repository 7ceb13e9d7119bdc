-- ===== src/Narration/Jobs.antt =====
-- The narration jobs: narration/adapters/outbound/worker_state.py. A statement is one step at its
-- time `now`.
pub mod Terminal
mod Tests
use reading_wiki.Prelude.{
  ℕ, suc, String, Bool, true, false, not, ◌&&◌, ◌||◌, Option, none, some, List, [], ◌∷◌, ◌++◌, ◌==◌,
  if◌then◌else◌, first_match, put_first, map_where, oldest_where, truthy, strip, str_eq, opt_eq,
  get_or,
}
use reading_wiki.Errors.{
  Exec, pure, gets, modify, atomically, on_option, when◌then◌else◌, ◌>>=◌, ◌>>◌,
}

pub data Status : Type 0 where
  queued generating done failed canceled : Status

-- The stage is free text; `dedupe_key` stands in the document of the options.
pub record Options : Type 0 where
  pub dedupe_key : Option String
  pub text : String

pub record Job : Type 0 where
  pub id : ℕ
  pub novel_id : ℕ
  pub user_id : Option ℕ
  pub scope : String
  pub voice_id : String
  pub status : Status
  pub stage : Option String
  pub progress : Option String
  pub options : Options
  pub error : Option String
  pub created_at : ℕ
  pub updated_at : ℕ

pub record JobDb : Type 0 where
  pub jobs : List Job
  pub next_id : ℕ

abbrev pub is_queued : Status → Bool
is_queued queued = true
is_queued _ = false

abbrev pub is_generating : Status → Bool
is_generating generating = true
is_generating _ = false

abbrev pub is_canceled : Status → Bool
is_canceled canceled = true
is_canceled _ = false

abbrev pub is_open : Status → Bool
is_open s = is_queued s || is_generating s

abbrev pub has_id : ℕ → Job → Bool
has_id i j = j.id == i

-- What the caller asks for: `active_statuses` and `trigger_statuses` are sets of statuses.
abbrev pub same_key : (Status → Bool) → String → Job → Bool
same_key active key j = active j.status && opt_eq j.options.dedupe_key key

abbrev pub created : Job → ℕ
created j = j.created_at

abbrev pub updated : Job → ℕ
updated j = j.updated_at

unfoldable pub insert_job : ℕ → ℕ → Option ℕ → String → String → Options → Exec JobDb ℕ
unfolding ◌>>=◌
insert_job now novel user scope voice options = do
  next ← gets (λ s. s.next_id)
  modify (λ s. record {
    jobs =
        s.jobs
        ++ (record {
          id = next;
          novel_id = novel;
          user_id = user;
          scope = scope;
          voice_id = voice;
          status = queued;
          stage = some "queued";
          progress = some "{}";
          options = options;
          error = none;
          created_at = now;
          updated_at = now;
        }
            ∷ []);
    next_id = suc next;
  })
  pure next

abbrev pub key_of : Options → String
key_of options = strip (get_or options.dedupe_key "")

abbrev pub existing : (Status → Bool) → Options → JobDb → Option Job
existing active options s =
    if truthy (key_of options)
    then oldest_where (same_key active (key_of options)) created s.jobs
    else none

unfoldable pub create_job :
    (Status → Bool) → ℕ → ℕ → Option ℕ → String → String → Options → Exec JobDb ℕ
unfolding ◌>>=◌ insert_job
create_job active now novel user scope voice options = atomically (do
  old ← gets (existing active options)
  on_option old (insert_job now novel user scope voice options) (λ j. pure j.id))

-- The fields of `update_job` that are given; a NULL is given as `some none`.
pub record Fields : Type 0 where
  pub status : Option Status
  pub stage : Option (Option String)
  pub progress : Option (Option String)
  pub error : Option (Option String)
  pub options : Option Options

abbrev pub cancels : Fields → Bool
cancels f = elim f.status [ none ↦ false | some s ↦ is_canceled s ]

-- `status IN (…)` of the statement.
abbrev pub may_write : Fields → Status → Bool
may_write f s = if cancels f then is_open s || is_canceled s else is_open s

abbrev pub write_fields : ℕ → Fields → Job → Job
write_fields now f j = record j {
  status = get_or f.status j.status;
  stage = get_or f.stage j.stage;
  progress = get_or f.progress j.progress;
  options = get_or f.options j.options;
  error = get_or f.error j.error;
  updated_at = now;
}

unfoldable pub update_job : ℕ → ℕ → Fields → Exec JobDb (Unit {0})
unfolding ◌>>=◌
update_job now i f = modify (λ s. record s {
  jobs = map_where (λ j. has_id i j && may_write f j.status) (write_fields now f) s.jobs;
})

unfoldable pub cancel_job : ℕ → ℕ → Exec JobDb (Unit {0})
unfolding ◌>>=◌
cancel_job now i = modify (λ s. record s {
  jobs =
      map_where (λ j. has_id i j && is_open j.status)
        (λ j. record j { status = canceled; stage = some "canceled"; updated_at = now }) s.jobs;
})

unfoldable pub requeue_interrupted : Exec JobDb (Unit {0})
unfolding ◌>>=◌
requeue_interrupted = modify (λ s. record s {
  jobs =
      map_where (λ j. is_generating j.status)
        (λ j. record j { status = queued; stage = some "requeued after restart" }) s.jobs;
})

abbrev pub claim : ℕ → Job → Job
claim now j = record j { status = generating; stage = some "claimed"; updated_at = now }

unfoldable pub claim_next : (Status → Bool) → ℕ → Exec JobDb (Option Job)
unfolding ◌>>=◌
claim_next triggers now = do
  found ← gets (λ s. oldest_where (λ j. triggers j.status) updated s.jobs)
  on_option found (pure none) (λ j. do
    modify (λ s. record s { jobs = map_where (has_id j.id) (claim now) s.jobs })
    pure (some (claim now j)))
