-- ===== src/Work/Worker/Endings.antt =====
-- The row of a job after its run is marked as done, and after a failure.
use reading_wiki.Prelude.{
  ℕ, ◌≡◌, refl, ◌∙◌, sym, subst, String, Bool, true, false, Option, none, some, arith, is_some,
  if◌then◌else◌, Bool-cases, Option-cases, inl, inr,
}
use reading_wiki.Errors.{Result, ok, ◌>>=◌}
use reading_wiki.Work.Job.{Job}
use reading_wiki.Work.Store.{Db, updated, update_returning}
use reading_wiki.Work.Settlement.{finalize}
use reading_wiki.Work.Transitions.{
  runs, complete, mark_done_if_running, overflows, after_failure, has_failed, fail_or_retry,
}
use reading_wiki.Work.Worker.Rows.{
  row, idle, released, Closes, rewritten, find-written, finalize-Closes,
}

complete-id : (progress : Option String) (now : ℕ) (j : Job) → (complete progress now j).id ≡ j.id
unfolding complete
complete-id none now j = refl
complete-id (some p) now j = refl

complete-idle :
    (progress : Option String) (now : ℕ) (o : Option Job)
    → idle (rewritten runs (complete progress now) o) ≡ true
unfolding complete
complete-idle progress now none = refl
complete-idle none now (some j) = ground arith
complete-idle (some p) now (some j) = ground arith

pub mark_done-idle :
    (i : ℕ) (progress : Option String) (s : Db)
    → idle (row i (mark_done_if_running i progress s).1) ≡ true
unfolding mark_done_if_running update_returning ◌>>=◌
mark_done-idle i progress s =
    rw (find-written i runs (complete progress s.now) s (row i s) (complete-id progress s.now) refl)
      (complete-idle progress s.now (row i s))

pub mark_done-ok :
    (i : ℕ) (progress : Option String) (s : Db)
    → (done : Bool) × ((mark_done_if_running i progress s).0 ≡ ok done)
unfolding mark_done_if_running update_returning ◌>>=◌
mark_done-ok i progress s = (is_some (updated (row i s) runs (complete progress s.now)), refl)

failure-id : (e : String) (now : ℕ) (j : Job) → (after_failure e now j).id ≡ j.id
unfolding after_failure
failure-id e now j = ground arith

failure-idle :
    (e : String) (now : ℕ) (o : Option Job)
    → overflows o ≡ false
    → idle (rewritten runs (after_failure e now) o) ≡ true
unfolding after_failure
failure-idle e now none h = refl
failure-idle e now (some j) h = ground arith

failure-released :
    (e : String) (now : ℕ) (j : Job)
    → runs j ≡ true
    → overflows (some j) ≡ false
    → has_failed (after_failure e now j).status ≡ false
    → released (some (after_failure e now j)) ≡ true
unfolding after_failure
failure-released e now j r h f = ground arith

module _ (i : ℕ) (e : String) (s : Db) where
  abbrev set_failed : Job → Job
  set_failed = after_failure e s.now

  abbrev failed_db : Db
  failed_db = (update_returning i runs (after_failure e) s).1

  failed_row : row i failed_db ≡ rewritten runs set_failed (row i s)
  unfolding update_returning
  failed_row = find-written i runs set_failed s (row i s) (failure-id e s.now) refl

  -- The statements after the UPDATE.
  abbrev after_update : Option Job → Db → Result (Unit {0}) × Db
  after_update none s' = finalize i false s'
  after_update (some j) s' = if has_failed j.status then finalize i false s' else (ok tt, s')

  fail_or_retry_lem :
      overflows (row i s) ≡ false
      → fail_or_retry i e s ≡ after_update (updated (row i s) runs set_failed) failed_db
  unfolding fail_or_retry update_returning ◌>>=◌
  fail_or_retry_lem h = rw h (elim (Option-cases (updated (row i s) runs set_failed)) [
    | inl f ↦ rw f refl
    | inr (j, f) ↦ rw f refl
  ])

  after_update-Closes :
      (o target : Option Job)
      → row i s ≡ target
      → updated target runs set_failed ≡ o
      → overflows target ≡ false
      → idle (row i failed_db) ≡ true
      → Closes i (after_update o failed_db)
  after_update-Closes none target found same h rests = finalize-Closes i false failed_db rests
  after_update-Closes (some j) none found same h rests = cc
  after_update-Closes (some j) (some j₀) found same h rests =
      elim (Bool-cases (has_failed j.status)) [
        | inl f ↦ rw f (finalize-Closes i false failed_db rests)
        | inr f ↦ elim (Bool-cases (runs j₀)) [
          | inr g ↦ ground arith
          | inl g ↦
              let same' : set_failed j₀ ≡ j = ground arith in
              let queued : released (some (set_failed j₀)) ≡ true =
                failure-released e s.now j₀ g h
                  (subst (λ x. has_failed x.status ≡ false) (sym same') f) in
              let now_row : row i failed_db ≡ some (set_failed j₀) =
                failed_row ∙ (rw found (rw g refl)) in
              rw f (rests, rw now_row queued)
        ]
      ]

  -- A failure of a job whose delay can be computed.
  pub fail_or_retry-Closes : overflows (row i s) ≡ false → Closes i (fail_or_retry i e s)
  fail_or_retry-Closes h = rw (fail_or_retry_lem h) (
      after_update-Closes (updated (row i s) runs set_failed) (row i s) refl refl h
        (rw failed_row (failure-idle e s.now (row i s) h)))
