-- ===== src/Ai/Slots/Tests.antt =====
-- A reader with one slot that has expired and one that has not, out of two.
use reading_wiki.Prelude.{
  ℕ, ◌≤◌, ◌≡◌, ◌↔◌, refl, true, arith, none, some, [], ◌∷◌, count_where, select,
}
use reading_wiki.Errors.{Exec, ok, raise, provider_unavailable}
use reading_wiki.Identity.Principal.{Principal, Role, AccountStatus}
use reading_wiki.Ai.Slots.{
  Lock, LockDb, slot_of, live_slot, has_id, acquire_slot, concurrency_slot, acquire, release,
  call_all, acquire_slot-live, concurrency_slot-released, call_all-bound,
}

abbrev lock : ℕ → ℕ → Lock
lock i expires = record { id = i; user_id = 5; kind = "ask"; expires_at = expires }

abbrev db : LockDb
db = record { locks = lock 1 10 ∷ (lock 2 90 ∷ []); next_id = 3 }

abbrev reader : Principal
reader = record {
  user_id = 5;
  role = Role.user;
  status = AccountStatus.active;
  email_verified = true;
  quota_limits = λ k. none;
}

abbrev after : LockDb
after = record { locks = lock 2 90 ∷ (lock 3 80 ∷ []); next_id = 4 }

abbrev work : Exec LockDb ℕ
work = raise provider_unavailable

granted : acquire_slot 2 60 20 5 "ask" db ≡ (ok (some 3), after)
unfolding acquire_slot count_where select
granted = refl

acquire_slot-live_example :
    ((acquire_slot 2 60 20 5 "ask" db).0 ≡ ok none)
    ↔ (2 ≤ count_where (live_slot 20 5 "ask") db.locks)
acquire_slot-live_example = acquire_slot-live 2 60 20 5 "ask" db

concurrency_slot-released_example :
    ((concurrency_slot 2 60 20 reader "ask" work db).0 ≡ (work after).0)
    × (count_where (has_id 3) (concurrency_slot 2 60 20 reader "ask" work db).1.locks ≡ 0)
concurrency_slot-released_example =
    concurrency_slot-released 2 60 20 3 reader "ask" work db after refl granted

two : count_where (slot_of 5 "ask") db.locks ≤ 2
unfolding count_where
two = omega arith

call_all-bound_example :
    count_where
      (slot_of 5 "ask")
      (call_all 2 60 (acquire 20 5 "ask" ∷ (acquire 21 5 "ask" ∷ (release 2 ∷ []))) db).locks
    ≤ 2
call_all-bound_example =
    call_all-bound 2 60 5 "ask" (acquire 20 5 "ask" ∷ (acquire 21 5 "ask" ∷ (release 2 ∷ []))) db
      two
