-- ===== src/Identity/Quota/Limits.antt =====
-- What the quota service counts and refuses.
use reading_wiki.Prelude.{
  ℕ, ◌+◌, ◌-◌, ◌≡◌, String, Bool, false, ◌&&◌, ◌||◌, some, List, leb, min, if◌then◌else◌, arith,
  Option-cases, inl, inr,
}
use reading_wiki.Errors.{Result, ok, err}
use reading_wiki.Identity.Principal.{Principal, is_admin, spend_allowed}
use reading_wiki.Identity.Quota.Kinds.{QuotaKind, parse_kind}
use reading_wiki.Identity.Quota.Table.{Usage, get_usage}
use reading_wiki.Identity.Quota.Cells.{
  same_cell, get_usage-bump, get_usage-try_reserve, get_usage-refund,
}
use reading_wiki.Identity.Quota.Service.{check_available, reserve, check_and_reserve, refund}

abbrev pub is_granted : Result Bool → Bool
is_granted (ok granted) = granted
is_granted (err e) = false

module _ (month : ℕ) (p : Principal) (kind : String) (units : ℕ) (t : List Usage) where
  -- A granted reservation adds its units to the caller's count of that kind in this month; every
  -- other count, and every count after a refusal or a raise, is what it was.
  pub get_usage-reserve :
      (k j : QuotaKind) (user' period' : ℕ)
      → parse_kind kind ≡ some k
      → let (r, t') = reserve month p kind units t in
        get_usage user' period' t' j ≡ (
          if is_granted r && same_cell p.user_id month k user' period' j
          then get_usage user' period' t j + units
          else get_usage user' period' t j)
  unfolding reserve
  get_usage-reserve k j user' period' parsed = rw parsed (elim (Option-cases (p.quota_limits k)) [
    | inl none_set ↦ ground (arith, get_usage-bump p.user_id month user' period' k j units t)
    | inr (limit, set) ↦ ground (
      arith,
      get_usage-bump p.user_id month user' period' k j units t,
      get_usage-try_reserve p.user_id month user' period' k j units t limit,
    )
  ])

  -- The check before and the reservation end in the same way.
  pub check_and_reserve-check_available :
      (check_and_reserve month p kind units t).0 ≡ (check_available month p kind units t).0
  unfolding check_and_reserve check_available
  check_and_reserve-check_available = elim (Option-cases (parse_kind kind)) [
    | inl unknown ↦ rw unknown
    | inr (k, parsed) ↦ rw parsed (elim (Option-cases (p.quota_limits k)) [
      | inl none_set ↦ ground arith
      | inr (limit, set) ↦
          ground (arith, get_usage-try_reserve p.user_id month p.user_id month k k units t limit)
    ])
  ]

  -- For a caller who is no admin, a reservation of at least one unit is granted exactly when the
  -- account may spend and the count stays within the limit; a reservation of none always is.
  pub reserve_exact :
      (k : QuotaKind) (limit : ℕ)
      → parse_kind kind ≡ some k
      → is_admin p ≡ false
      → p.quota_limits k ≡ some limit
      → (reserve month p kind units t).0
        ≡ ok (leb units 0 || (spend_allowed p && leb (get_usage p.user_id month t k + units) limit))
  unfolding reserve
  reserve_exact k limit parsed plain set =
      rw (parsed, set)
        (ground (arith, get_usage-try_reserve p.user_id month p.user_id month k k units t limit))

module _ (month : ℕ) (kind : String) (units : ℕ) (t : List Usage) where
  -- A refund of a known kind to a user gives back the units, but no more than the user's count of
  -- the month, and touches no other count.
  pub refund-gives :
      (user : ℕ) (k j : QuotaKind) (user' period' : ℕ)
      → parse_kind kind ≡ some k
      → let (r, t') = refund month (some user) kind units t in
        (r ≡ ok (min units (get_usage user month t k)))
        × (get_usage user' period' t' j ≡ (
            if same_cell user month k user' period' j
            then get_usage user' period' t j - units
            else get_usage user' period' t j))
  unfolding refund
  refund-gives user k j user' period' parsed =
      rw parsed (ground (arith, get_usage-refund user month user' period' k j units t))
