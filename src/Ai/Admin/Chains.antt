-- ===== src/Ai/Admin/Chains.antt =====
-- Chains of actions on the tables of the policy: what returned, what is kept, and that
-- cancelling jobs leaves the grants alone.
use reading_wiki.Prelude.{
  ℕ, ◌≡◌, refl, ◌∙◌, Bool, true, false, Option, List, [], ◌∷◌, arith, if◌then◌else◌, select,
}
use reading_wiki.Errors.{ok, err, Result, when◌then◌else◌, continue, ◌>>=◌}
use reading_wiki.Work.Job.{Backend}
use reading_wiki.Work.Transitions.{cancel_job}
use reading_wiki.Ai.Backend.{Workload}
use reading_wiki.Ai.Grants.{Policy, AiDb, AiExec, with_work}
use reading_wiki.Ai.Admin.{
  count_if, ids, is_revoked, revoked_kinds, revoked_job_ids, cancel_each, cancel_revoked_jobs,
  revoke_backend,
}

abbrev pub SamePolicies : {A : Type 0} → AiExec A → Type 0
SamePolicies m = (s : AiDb) → (m s).1.policies ≡ s.policies

pub bind-SamePolicies :
    {A B : Type 0} (m : AiExec A) (k : A → AiExec B)
    → SamePolicies m
    → ((a : A) → SamePolicies (k a))
    → SamePolicies (m >>= k)
unfolding ◌>>=◌
bind-SamePolicies {A} {B} m k hm hk s = go (m s).0 (m s).1 (hm s)
  where
    go :
        (r : Result A) (s' : AiDb)
        → s'.policies ≡ s.policies
        → (continue r k s').1.policies ≡ s.policies
    go (ok a) s' h = hk a s' ∙ h
    go (err e) s' h = h

cancel_each-SamePolicies : (is : List ℕ) (n : ℕ) → SamePolicies (cancel_each is n)
unfolding cancel_each with_work
cancel_each-SamePolicies [] n = λ s. refl
cancel_each-SamePolicies (i ∷ is) n =
    bind-SamePolicies (with_work (cancel_job i)) _ (λ s. refl)
      (λ canceled. cancel_each-SamePolicies is (count_if canceled n))

pub cancel_revoked-SamePolicies :
    (user : ℕ) (removed : Option (List Workload)) (b : Backend)
    → SamePolicies (cancel_revoked_jobs user removed b)
unfolding cancel_revoked_jobs revoked_job_ids
cancel_revoked-SamePolicies user removed b s =
    cancel_each-SamePolicies
      (ids (select (is_revoked user (revoked_kinds removed b) b) s.work.jobs)) 0 s

when-SamePolicies :
    {A : Type 0} (c : Bool) (m n : AiExec A)
    → SamePolicies m
    → SamePolicies n
    → SamePolicies (when c then m else n)
unfolding ◌>>=◌
when-SamePolicies true m n hm hn s = hm s
when-SamePolicies false m n hm hn s = hn s

pub revoke-SamePolicies :
    (user : ℕ) (previous row : Policy) (b : Backend)
    → SamePolicies (revoke_backend user previous row b)
unfolding revoke_backend
revoke-SamePolicies user previous row b =
    when-SamePolicies _ _ _ (λ s. refl)
      (bind-SamePolicies (cancel_revoked_jobs user _ b) _ (cancel_revoked-SamePolicies user _ b)
        (λ _ s. refl))

module _ {A B : Type 0} (m : AiExec A) (k : A → AiExec B) where
  -- What a chain that returned went through.
  pub bind_ok :
      (s : AiDb) {b : B}
      → ((m >>= k) s).0 ≡ ok b
      → (a : A) × (((m s).0 ≡ ok a) × ((m >>= k) s ≡ k a (m s).1))
  unfolding ◌>>=◌
  bind_ok s {b} h = go (m s).0 refl h
    where
      go :
          (r : Result A)
          → (m s).0 ≡ r
          → (continue r k (m s).1).0 ≡ ok b
          → (a : A) × (((m s).0 ≡ ok a) × (continue (m s).0 k (m s).1 ≡ k a (m s).1))
      go (ok a) e h = (a, (e, rw e refl))
      go (err x) e h = absurd (ground (arith, h))

  -- A chain keeps what its parts keep, where the second part may use what the first returned.
  pub bind-keeps :
      (P : AiDb → Type 0) (Q : A → Type 0)
      → ((s : AiDb) → P s → P (m s).1)
      → ((s : AiDb) (a : A) → (m s).0 ≡ ok a → Q a)
      → ((a : A) → Q a → (s : AiDb) → P s → P (k a s).1)
      → (s : AiDb) → P s
      → P ((m >>= k) s).1
  unfolding ◌>>=◌
  bind-keeps P Q hm post hk s p = go (m s).0 (post s) (hm s p)
    where
      go : (r : Result A) → ((a : A) → r ≡ ok a → Q a) → P (m s).1 → P (continue r k (m s).1).1
      go (ok a) holds p = hk a (holds a refl) (m s).1 p
      go (err x) holds p = p
