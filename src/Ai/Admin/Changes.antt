-- ===== src/Ai/Admin/Changes.antt =====
-- What admins' changes do to the table of grants, and to what workers may run.
use reading_wiki.Prelude.{
  ℕ, ◌≡◌, ◌≢◌, refl, sym, subst, ap, ◌∙◌, Bool, true, false, not, Option, none, some, List, [], ◌∷◌,
  arith, select, All, All-put, All-append, All-select, first_match-select-not, get_or, Option-cases,
  Bool-cases, inl, inr,
}
use reading_wiki.Errors.{ok}
use reading_wiki.Identity.Principal.{AccountStatus}
use reading_wiki.Work.Job.{Job, Backend}
use reading_wiki.Ai.Backend.{parse_backend}
use reading_wiki.Ai.Settings.{Settings}
use reading_wiki.Ai.Grants.{Policy, AiDb, of_user, find_policy}
use reading_wiki.Ai.Resolve.{Verdict, reauthorize_job}
use reading_wiki.Ai.Admin.Chains.{
  SamePolicies, bind-SamePolicies, cancel_revoked-SamePolicies, revoke-SamePolicies, bind-keeps,
}
use reading_wiki.Ai.Admin.{
  Values, default_allowed, in_bounds, stored, policy_row, insert_or_update, user_exists,
  cancel_revoked_jobs, revoke_backend, check_values, write_policy, store_policy, revoke_changed,
  cancel_deleted, upsert_policy, delete_row, delete_policy,
}

-- The checks of the table: the default backend is one whose access is enabled, and each
-- concurrency lies between 1 and 4.
pub record IsValid (p : Policy) : Type 0 where
  pub default_enabled :
      default_allowed p.default_backend p.agy_enabled p.openai_codex_enabled ≡ true
  pub agy_bounds : in_bounds p.max_concurrent_agy_jobs ≡ true
  pub openai_codex_bounds : in_bounds p.max_concurrent_openai_codex_jobs ≡ true

abbrev pub AllValid : AiDb → Type 0
AllValid s = All IsValid s.policies

check_values-IsValid :
    (user : ℕ) (v : Values) (admin : ℕ) (s : AiDb) (default : Backend)
    → (check_values v s).0 ≡ ok default
    → IsValid (policy_row user v default admin)
unfolding check_values policy_row
check_values-IsValid user v admin s default h =
    elim (Option-cases (parse_backend (get_or v.default_backend "api"))) [
      | inl unknown ↦ absurd (ground (arith, unknown))
      | inr (b, parsed) ↦ record {
        default_enabled = ground arith;
        agy_bounds = ground arith;
        openai_codex_bounds = ground arith;
      }
    ]

pub check_values_same : (v : Values) (s : AiDb) → (check_values v s).1 ≡ s
unfolding check_values
check_values_same v s = elim (Option-cases (parse_backend (get_or v.default_backend "api"))) [
  | inl unknown ↦ ground (arith, unknown)
  | inr (b, parsed) ↦ ground arith
]

stored-All-IsValid :
    (o : Option Policy) (row : Policy) (ps : List Policy)
    → All IsValid ps
    → IsValid row
    → All IsValid (stored o row ps)
stored-All-IsValid none row ps all h = All-append IsValid ps (row ∷ []) all (h, tt)
stored-All-IsValid (some p) row ps all h = All-put IsValid (of_user row.user_id) row ps all h

write-AllValid :
    (fresh : Policy) → IsValid fresh → (s : AiDb) → AllValid s → AllValid (write_policy fresh s).1
unfolding write_policy insert_or_update
write-AllValid fresh h s all = elim (Bool-cases (user_exists fresh.user_id s.users)) [
  | inl there ↦ rw there (
      stored-All-IsValid _ _ s.policies all (record {
        default_enabled = h.default_enabled;
        agy_bounds = h.agy_bounds;
        openai_codex_bounds = h.openai_codex_bounds;
      }))
  | inr missing ↦ rw missing all
]

-- The end of `upsert_policy`: what is returned, and that grants are left alone.
pub finish-SamePolicies :
    (user : ℕ) (previous : Option Policy) (row : Policy)
    → SamePolicies (revoke_changed user previous row)
unfolding revoke_changed
finish-SamePolicies user none row = λ s. refl
finish-SamePolicies user (some p) row =
    bind-SamePolicies (revoke_backend user p row Backend.agy) _
      (revoke-SamePolicies user p row Backend.agy)
      (λ _. revoke-SamePolicies user p row Backend.openai_codex)

upsert-AllValid :
    (user : ℕ) (v : Values) (admin : ℕ) (s : AiDb)
    → AllValid s
    → AllValid (upsert_policy user v admin s).1
unfolding upsert_policy store_policy policy_row
upsert-AllValid user v admin =
    bind-keeps (check_values v) _ AllValid (λ default. IsValid (policy_row user v default admin))
      (λ s p. subst AllValid (sym (check_values_same v s)) p) (check_values-IsValid user v admin)
      (λ default valid.
        bind-keeps (write_policy (policy_row user v default admin)) _ AllValid (λ _. Unit {0})
          (write-AllValid (policy_row user v default admin) valid) (λ s a h. tt)
          (λ written _.
            bind-keeps (revoke_changed user written.0 written.1) _ AllValid (λ _. Unit {0})
              (λ s p. subst (All IsValid) (sym (finish-SamePolicies user written.0 written.1 s)) p)
              (λ s a h. tt) (λ _ _ s p. p)))

cancel_deleted-SamePolicies :
    (user : ℕ) (deleted : Bool) → SamePolicies (cancel_deleted user deleted)
unfolding cancel_deleted
cancel_deleted-SamePolicies user false = λ s. refl
cancel_deleted-SamePolicies user true =
    bind-SamePolicies (cancel_revoked_jobs user none Backend.agy) _
      (cancel_revoked-SamePolicies user none Backend.agy)
      (λ _.
        bind-SamePolicies (cancel_revoked_jobs user none Backend.openai_codex) _
          (cancel_revoked-SamePolicies user none Backend.openai_codex) (λ _ s. refl))

delete-AllValid : (user : ℕ) (s : AiDb) → AllValid s → AllValid (delete_policy user s).1
unfolding delete_policy delete_row
delete-AllValid user s all =
    let s' : AiDb = record s { policies = select (λ p. not (of_user user p)) s.policies } in
    subst (All IsValid) (sym (cancel_deleted-SamePolicies user _ s'))
      (All-select IsValid _ s.policies all)

-- The calls of admins that change a grant.
pub data Change : Type 0 where
  upsert : ℕ → Values → ℕ → Change
  delete : ℕ → Change

-- The state after the call, whether it returned or raised.
unfoldable pub change : Change → AiDb → AiDb
change (upsert user v admin) s = (upsert_policy user v admin s).1
change (delete user) s = (delete_policy user s).1

unfoldable pub change_all : List Change → AiDb → AiDb
change_all [] s = s
change_all (c ∷ cs) s = change_all cs (change c s)

-- Whatever admins ask for, every grant stays valid: its default backend is one whose access is
-- enabled, and its concurrencies lie between 1 and 4.
pub change_all-AllValid : (cs : List Change) (s : AiDb) → AllValid s → AllValid (change_all cs s)
unfolding change_all change
change_all-AllValid [] s all = all
change_all-AllValid (upsert user v admin ∷ cs) s all =
    change_all-AllValid cs _ (upsert-AllValid user v admin s all)
change_all-AllValid (delete user ∷ cs) s all = change_all-AllValid cs _ (delete-AllValid user s all)

module _ (user : ℕ) (s : AiDb) where
  find-delete_policy : find_policy user (delete_policy user s).1.policies ≡ none
  unfolding delete_policy delete_row
  find-delete_policy =
      let s' : AiDb = record s { policies = select (λ p. not (of_user user p)) s.policies } in
      ap (find_policy user) (cancel_deleted-SamePolicies user _ s')
      ∙ first_match-select-not (of_user user) s.policies

  -- When an admin has deleted a user's grant, no job of the user is let through by a worker,
  -- whatever became of the cancellation of the jobs.
  pub delete_policy-reauthorize_job :
      (cfg : Settings) (j : Job) (status : Option AccountStatus) (v : Verdict)
      → (reauthorize_job cfg j
          (some (record { id = user; status = status }))
          (delete_policy user s).1).0
        ≢ ok (true, v)
  unfolding reauthorize_job
  delete_policy-reauthorize_job cfg j status v h = ground (arith, find-delete_policy)
