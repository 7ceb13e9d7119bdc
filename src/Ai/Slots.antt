-- ===== src/Ai/Slots.antt =====
-- The ceiling on concurrent AI reads of a user: `_acquire_slot`, `_release_slot` and
-- `concurrency_slot` of ai_execution/adapters/outbound/limits.py.
mod Tests
use reading_wiki.Prelude.{
  ℕ, suc, ◌+◌, ◌≤◌, ◌≡◌, ◌↔◌, ap₂, eq_iff, ==_iff, count-append, count_one, refl, String, Bool,
  true, false, not, ◌&&◌, Option, none, some, List, [], ◌∷◌, ◌++◌, ◌==◌, leb, ltb, arith,
  if◌then◌else◌, str_eq, select, count_where, is_some, Bool-cases, Option-cases, inl, inr,
}
use reading_wiki.Errors.{
  Exec, Result, ok, err, pure, gets, modify, atomically, or_raise, when◌then◌else◌, ◌>>=◌, ◌>>◌,
  rate_limited,
}
use reading_wiki.Identity.Principal.{Principal, is_admin}

pub record Lock : Type 0 where
  pub id : ℕ
  pub user_id : ℕ
  pub kind : String
  pub expires_at : ℕ

pub record LockDb : Type 0 where
  pub locks : List Lock
  pub next_id : ℕ

abbrev pub slot_of : ℕ → String → Lock → Bool
slot_of user kind l = l.user_id == user && str_eq l.kind kind

abbrev pub is_live : ℕ → Lock → Bool
is_live now l = ltb now l.expires_at

abbrev pub live_slot : ℕ → ℕ → String → Lock → Bool
live_slot now user kind l = is_live now l && slot_of user kind l

abbrev pub has_id : ℕ → Lock → Bool
has_id i l = l.id == i

module _ (maximum ttl : ℕ) where
  unfoldable pub insert_lock : ℕ → ℕ → String → Exec LockDb ℕ
  unfolding ◌>>=◌
  insert_lock now user kind = do
    next ← gets (λ s. s.next_id)
    modify (λ s. record {
      locks =
          s.locks
          ++ (record { id = next; user_id = user; kind = kind; expires_at = now + ttl } ∷ []);
      next_id = suc next;
    })
    pure next

  unfoldable pub acquire_slot : ℕ → ℕ → String → Exec LockDb (Option ℕ)
  unfolding ◌>>=◌ insert_lock
  acquire_slot now user kind = atomically (do
    modify (λ s. record s { locks = select (is_live now) s.locks })
    active ← gets (λ s. count_where (slot_of user kind) s.locks)
    when leb maximum active
        then pure none
        else (do next ← insert_lock now user kind; pure (some next)))

  unfoldable pub release_slot : ℕ → Exec LockDb (Unit {0})
  unfolding ◌>>=◌
  release_slot i = modify (λ s. record s { locks = select (λ l. not (has_id i l)) s.locks })

  -- `try: yield finally: …`; an error of the release itself is swallowed.
  unfoldable pub finally_do : {A : Type 0} → Exec LockDb A → Exec LockDb (Unit {0}) → Exec LockDb A
  finally_do m release s = let (r, s') = m s in (r, (release s').1)

  -- `work` stands for what runs in the `async with` block.
  unfoldable pub concurrency_slot :
      {A : Type 0} → ℕ → Principal → String → Exec LockDb A → Exec LockDb A
  unfolding ◌>>=◌ acquire_slot release_slot finally_do
  concurrency_slot now p kind work = when is_admin p then work else (do
    slot ← acquire_slot now p.user_id kind
    i ← or_raise slot rate_limited
    finally_do work (release_slot i))

  -- ── the ceiling ──

  count-select_le :
      (p q : Lock → Bool) (ls : List Lock) → count_where q (select p ls) ≤ count_where q ls
  unfolding count_where select
  count-select_le p q [] = omega arith
  count-select_le p q (l ∷ ls) = ground (arith, count-select_le p q ls)

  count-live :
      (now user : ℕ) (kind : String) (ls : List Lock)
      → count_where (slot_of user kind) (select (is_live now) ls)
        ≡ count_where (live_slot now user kind) ls
  unfolding count_where select
  count-live now user kind [] = refl
  count-live now user kind (l ∷ ls) = ground (arith, count-live now user kind ls)

  count-gone :
      (i : ℕ) (ls : List Lock) → count_where (has_id i) (select (λ l. not (has_id i l)) ls) ≡ 0
  unfolding count_where select
  count-gone i [] = refl
  count-gone i (l ∷ ls) = ground (arith, count-gone i ls)

  -- A slot is granted exactly where fewer than the maximum of slots of the user and the kind have
  -- not expired: a slot whose owner died keeps nobody out once it has expired.
  pub acquire_slot-live :
      (now user : ℕ) (kind : String) (s : LockDb)
      → ((acquire_slot now user kind s).0 ≡ ok none)
        ↔ (maximum ≤ count_where (live_slot now user kind) s.locks)
  unfolding acquire_slot
  acquire_slot-live now user kind s =
      elim (Bool-cases
        (leb maximum (count_where (slot_of user kind) (select (is_live now) s.locks)))) [
          | inl full ↦
              rw full (λ e. ground (arith, full, count-live now user kind s.locks), λ h. refl)
          | inr room ↦ rw room (
            λ e. absurd (ground (arith, e)),
            λ h. absurd (ground (arith, h, room, count-live now user kind s.locks)),
          )
        ]

  -- The block runs on the granted slot, and its outcome, be it a value or an error, is passed on;
  -- the slot is gone afterwards in either case, where the statement that releases it does not fail.
  pub concurrency_slot-released :
      {A : Type 0} (now i : ℕ) (p : Principal) (kind : String) (work : Exec LockDb A)
      (s s' : LockDb)
      → is_admin p ≡ false
      → acquire_slot now p.user_id kind s ≡ (ok (some i), s')
      → ((concurrency_slot now p kind work s).0 ≡ (work s').0)
        × (count_where (has_id i) (concurrency_slot now p kind work s).1.locks ≡ 0)
  unfolding concurrency_slot
  concurrency_slot-released now i p kind work s s' plain granted =
      rw (plain, granted) (refl, count-gone i (work s').1.locks)

-- The calls of the processes that share the table, each at its time.
pub data Call : Type 0 where
  acquire : ℕ → ℕ → String → Call
  release : ℕ → Call

module _ (maximum ttl : ℕ) where
  unfoldable pub call : Call → LockDb → LockDb
  call (acquire now user kind) s = (acquire_slot maximum ttl now user kind s).1
  call (release i) s = (release_slot maximum ttl i s).1

  unfoldable pub call_all : List Call → LockDb → LockDb
  unfolding call
  call_all [] s = s
  call_all (c ∷ calls) s = call_all calls (call c s)

  -- Another slot of the same user and kind counts as one of them.
  same_slots :
      (user other : ℕ) (kind sort : String) (ls : List Lock)
      → (other == user && str_eq sort kind) ≡ true
      → count_where (slot_of other sort) ls ≡ count_where (slot_of user kind) ls
  same_slots user other kind sort ls same =
      ap₂ (λ u t. count_where (slot_of u t) ls) ((==_iff other user).0 (ground (arith, same)))
        ((eq_iff sort kind).0 (ground (arith, same)))

  acquire-bound :
      (user : ℕ) (kind : String) (now other : ℕ) (sort : String) (s : LockDb)
      → count_where (slot_of user kind) s.locks ≤ maximum
      → count_where (slot_of user kind) (acquire_slot maximum ttl now other sort s).1.locks
        ≤ maximum
  unfolding acquire_slot
  acquire-bound user kind now other sort s h =
      elim (Bool-cases
        (leb maximum (count_where (slot_of other sort) (select (is_live now) s.locks)))) [
          | inl full ↦ rw full (
              omega
                (arith, h, count-select_le maximum ttl (is_live now) (slot_of user kind) s.locks))
          | inr room ↦ rw room (
              rw
                (
                  count-append (slot_of user kind) (select (is_live now) s.locks) _,
                  count_one (slot_of user kind) _,
                )
                (elim (Bool-cases (other == user && str_eq sort kind)) [
                  | inl same ↦ rw same (
                      ground (
                        arith,
                        room,
                        same_slots user other kind sort (select (is_live now) s.locks) same,
                      ))
                  | inr apart ↦ rw apart (
                      ground (
                        arith,
                        h,
                        count-select_le maximum ttl (is_live now) (slot_of user kind) s.locks,
                      ))
                ]))
        ]

  call-bound :
      (user : ℕ) (kind : String) (c : Call) (s : LockDb)
      → count_where (slot_of user kind) s.locks ≤ maximum
      → count_where (slot_of user kind) (call c s).locks ≤ maximum
  unfolding call acquire_slot release_slot
  call-bound user kind (release i) s h =
      omega
        (arith, h, count-select_le maximum ttl (λ l. not (has_id i l)) (slot_of user kind) s.locks)
  call-bound user kind (acquire now other sort) s h = acquire-bound user kind now other sort s h

  -- A user never holds more slots of a kind than the maximum, whatever slots are acquired and
  -- released, by whom and when.
  pub call_all-bound :
      (user : ℕ) (kind : String) (calls : List Call) (s : LockDb)
      → count_where (slot_of user kind) s.locks ≤ maximum
      → count_where (slot_of user kind) (call_all calls s).locks ≤ maximum
  unfolding call_all
  call_all-bound user kind [] s h = h
  call_all-bound user kind (c ∷ calls) s h =
      call_all-bound user kind calls (call c s) (call-bound user kind c s h)
