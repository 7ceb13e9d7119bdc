-- ===== src/Work/Service.antt =====
-- Who may see and cancel a job: `WorkService` of work/application/service.py. `view` stands for
-- the details that `JobMetadataPort` adds and `job_view`.
use reading_wiki.Prelude.{
  ℕ, Bool, true, false, ◌≡◌, refl, ◌||◌, Option, none, some, ◌==◌, if◌then◌else◌, ◌⊎◌, ◌↔◌, inl,
  inr, arith, Option-cases, Bool-cases, subst,
}
use reading_wiki.Errors.{ok, err, pure, gets, or_raise, when◌then◌else◌, ◌>>=◌, not_found, raise}
use reading_wiki.Work.Job.{Job}
use reading_wiki.Work.Store.{Db, Work, find}
use reading_wiki.Work.Transitions.{cancel_job}

pub record WorkPrincipal : Type 0 where
  pub user_id : ℕ
  pub is_admin : Bool

abbrev pub is_requester : ℕ → Option ℕ → Bool
is_requester user none = false
is_requester user (some u) = u == user

-- `owned` of `_owned_job`
unfoldable pub owns : WorkPrincipal → Job → Bool
owns p j = p.is_admin || is_requester p.user_id j.user_id

abbrev pub owned_in : WorkPrincipal → Option Job → Bool
owned_in p none = false
owned_in p (some j) = owns p j

unfoldable pub owned_job : ℕ → WorkPrincipal → Work Job
unfolding ◌>>=◌
owned_job i p = do
  row ← gets (λ s. find i s.jobs)
  when owned_in p row then or_raise row not_found else raise not_found

unfoldable pub get_owned : {V : Type 0} → (Job → V) → ℕ → WorkPrincipal → Work V
unfolding ◌>>=◌ owned_job
get_owned view i p = do j ← owned_job i p; pure (view j)

unfoldable pub cancel_owned : ℕ → WorkPrincipal → Work Bool
unfolding ◌>>=◌ owned_job
cancel_owned i p = do _ ← owned_job i p; cancel_job i

-- `j` was requested by the caller, or the caller is an admin.
abbrev pub IsOpenTo : WorkPrincipal → Job → Type 0
IsOpenTo p j = (p.is_admin ≡ true) ⊎ (j.user_id ≡ some p.user_id)

owns-IsOpenTo : (p : WorkPrincipal) (j : Job) → (owns p j ≡ true) ↔ IsOpenTo p j
unfolding owns
owns-IsOpenTo p j = elim (Option-cases j.user_id) [
  | inl none_set ↦ (λ h. inl (ground (arith, none_set, h)), λ h. ground (arith, none_set, h))
  | inr (u, set) ↦ (λ h. ground (arith, set, h), λ h. ground (arith, set, h))
]

module _ (i : ℕ) (p : WorkPrincipal) (s : Db) where
  refused :
      {V : Type 0} (view : Job → V)
      → owned_in p (find i s.jobs) ≡ false
      → (cancel_owned i p s ≡ (err not_found, s)) × (get_owned view i p s ≡ (err not_found, s))
  unfolding cancel_owned get_owned
  refused view foreign = (rw foreign refl, rw foreign refl)

  -- Either the job is there and the caller is an admin or requested it: the caller sees it, and a
  -- cancellation is that of the job. Or it is not so, and both calls answer as if there were no
  -- such job, and change nothing.
  pub job_access :
      {V : Type 0} (view : Job → V)
      → ((j : Job) × (find i s.jobs ≡ some j)
          × IsOpenTo p j
          × (get_owned view i p s ≡ (ok (view j), s))
          × (cancel_owned i p s ≡ cancel_job i s))
        ⊎ (¬ ((j : Job) × (find i s.jobs ≡ some j) × IsOpenTo p j)
            × (cancel_owned i p s ≡ (err not_found, s))
            × (get_owned view i p s ≡ (err not_found, s)))
  unfolding cancel_owned get_owned
  job_access view = elim (Option-cases (find i s.jobs)) [
    | inl e ↦ inr (
      λ (j, found, open_to). ground (arith, e, found),
      (refused view (rw e refl)).0,
      (refused view (rw e refl)).1,
    )
    | inr (j, e) ↦ elim (Bool-cases (owns p j)) [
      | inl own ↦ inl (j, e, (owns-IsOpenTo p j).0 own, rw (e, own) refl, rw (e, own) refl)
      | inr foreign ↦ inr (
        λ (k, found, open_to).
            let same : k ≡ j = ground (arith, e, found) in
            ground (arith, foreign, (owns-IsOpenTo p j).1 (subst (IsOpenTo p) same open_to)),
        (refused view (rw e foreign)).0,
        (refused view (rw e foreign)).1,
      )
    ]
  ]
