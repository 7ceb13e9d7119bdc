-- ===== src/Ai/Admin/Versions.antt =====
-- What a change of a grant leaves in the table.
use reading_wiki.Prelude.{
  ==_iff, if◌then◌else◌, ℕ, ◌≡◌, refl, sym, subst, ap, ◌∙◌, false, Option, some, List, [], ◌∷◌,
  arith, ◌==◌, first_match, first_match-append, first_match-put, first_match-put_ne, Option-cases,
  Bool-cases, inl, inr,
}
use reading_wiki.Errors.{ok}
use reading_wiki.Ai.Grants.{Policy, AiDb, of_user, find_policy}
use reading_wiki.Ai.Admin.Chains.{bind_ok}
use reading_wiki.Ai.Admin.Changes.{check_values_same, finish-SamePolicies}
use reading_wiki.Ai.Admin.{
  Values, next_version, stored, policy_row, insert_or_update, user_exists, check_values,
  write_policy, store_policy, revoke_changed, upsert_policy,
}

-- A row of the table is found by its user and by no other.
stored-found :
    (row : Policy) (ps : List Policy)
    → find_policy row.user_id (stored (find_policy row.user_id ps) row ps) ≡ some row
unfolding first_match
stored-found row ps = elim (Option-cases (find_policy row.user_id ps)) [
  | inl missing ↦
      rw (missing, first_match-append (of_user row.user_id) ps (row ∷ []), missing) (ground arith)
  | inr (p, there) ↦ rw there (ground (arith, there, first_match-put (of_user row.user_id) row ps))
]

stored-others :
    (row : Policy) (ps : List Policy) (user : ℕ)
    → (row.user_id == user) ≡ false
    → find_policy user (stored (find_policy row.user_id ps) row ps) ≡ find_policy user ps
unfolding first_match
stored-others row ps user other = elim (Option-cases (find_policy row.user_id ps)) [
  | inl missing ↦
      rw (missing, first_match-append (of_user user) ps (row ∷ [])) (ground (arith, other))
  | inr (p, there) ↦
      rw there
        (first_match-put_ne (of_user row.user_id) (of_user user) row ps (λ x h. ground arith) other)
]

-- How a call that returned `row` leaves the table.
pub record IsStored (before after : List Policy) (user : ℕ) (row : Policy) : Type 0 where
  pub table : after ≡ stored (find_policy row.user_id before) row before
  pub version : row.policy_version ≡ next_version (find_policy row.user_id before)
  pub owner : row.user_id ≡ user

module _ (fresh : Policy) (s : AiDb) where
  write_policy-IsStored :
      {previous : Option Policy} {row : Policy}
      → (write_policy fresh s).0 ≡ ok (previous, row)
      → IsStored s.policies (write_policy fresh s).1.policies fresh.user_id row
  unfolding write_policy insert_or_update
  write_policy-IsStored {previous} {row} h = elim (Bool-cases (user_exists fresh.user_id s.users)) [
    | inl there ↦
        let first : Policy = record fresh {
          policy_version = next_version (find_policy fresh.user_id s.policies);
        } in
        let same : first ≡ row = ground (arith, there, h) in
        subst (IsStored s.policies (write_policy fresh s).1.policies fresh.user_id) same
          (record { table = rw there refl; version = refl; owner = refl })
    | inr missing ↦ absurd (ground (arith, missing))
  ]

  store_policy-IsStored :
      {row : Policy}
      → (store_policy fresh s).0 ≡ ok row
      → IsStored s.policies (store_policy fresh s).1.policies fresh.user_id row
  unfolding store_policy
  store_policy-IsStored {row} h =
      let s' : AiDb = (write_policy fresh s).1 in
      let (written, (e, q)) = bind_ok (write_policy fresh) _ s h in
      let h' = subst (λ x. x.0 ≡ ok row) q h in
      let (_, (_, q')) = bind_ok (revoke_changed fresh.user_id written.0 written.1) _ s' h' in
      let end : ok written.1 ≡ ok row = sym (ap (λ x. x.0) q') ∙ h' in
      let same : written.1 ≡ row = ground (arith, end) in
      let table =
        ap (λ x. x.1.policies) (q ∙ q')
        ∙ finish-SamePolicies fresh.user_id written.0 written.1 s' in
      subst (λ ps. IsStored s.policies ps fresh.user_id row) (sym table)
        (subst (IsStored s.policies s'.policies fresh.user_id) same (write_policy-IsStored e))

module _ (user : ℕ) (s : AiDb) (v : Values) (admin : ℕ) where
  upsert_policy-IsStored :
      {row : Policy}
      → (upsert_policy user v admin s).0 ≡ ok row
      → IsStored s.policies (upsert_policy user v admin s).1.policies user row
  unfolding upsert_policy policy_row
  upsert_policy-IsStored {row} h =
      let (default, (e, q)) = bind_ok (check_values v) _ s h in
      let fresh : Policy = policy_row user v default admin in
      let q' = q ∙ ap (store_policy fresh) (check_values_same v s) in
      subst (λ x. IsStored s.policies x.1.policies user row) (sym q')
        (store_policy-IsStored fresh s (subst (λ x. x.0 ≡ ok row) q' h))

  -- A change of a grant that returned stands in the table as it was returned, with a version one
  -- above the one before, and leaves the grants of all other users alone.
  pub upsert_policy-find_policy :
      (other : ℕ) {row : Policy}
      → let (r, s') = upsert_policy user v admin s in
        r ≡ ok row
        → (find_policy other s'.policies
            ≡ (if user == other then some row else find_policy other s.policies))
          × (row.policy_version ≡ next_version (find_policy user s.policies))
  upsert_policy-find_policy other {row} h =
      let stored = upsert_policy-IsStored {row = row} h in
      let s' : AiDb = (upsert_policy user v admin s).1 in
      let version =
        subst (λ x. row.policy_version ≡ next_version (find_policy x s.policies)) stored.owner
          stored.version in
      elim (Bool-cases (user == other)) [
        | inl same ↦ (
          rw same (
              subst (λ x. find_policy x s'.policies ≡ some row)
                (stored.owner ∙ (==_iff user other).0 same)
                (subst (λ ps. find_policy row.user_id ps ≡ some row) (sym stored.table)
                  (stored-found row s.policies))),
          version,
        )
        | inr apart ↦ (
          rw apart (
              subst (λ ps. find_policy other ps ≡ find_policy other s.policies) (sym stored.table)
                (stored-others row s.policies other
                  (subst (λ x. (x == other) ≡ false) (sym stored.owner) apart))),
          version,
        )
      ]
