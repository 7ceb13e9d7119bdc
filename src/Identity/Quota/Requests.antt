-- ===== src/Identity/Quota/Requests.antt =====
-- Sequences of reservations and refunds in one month.
use reading_wiki.Prelude.{
  ℕ, ◌≤◌, ◌≡◌, String, true, false, Option, none, some, List, [], ◌∷◌, All, arith, Option-cases,
  inl, inr,
}
use reading_wiki.Errors.{ok, err, value_error}
use reading_wiki.Identity.Principal.{Principal, is_admin}
use reading_wiki.Identity.Quota.Kinds.{QuotaKind, parse_kind}
use reading_wiki.Identity.Quota.Table.{Usage, get_usage}
use reading_wiki.Identity.Quota.Service.{reserve, refund}
use reading_wiki.Identity.Quota.Limits.{get_usage-reserve, reserve_exact, refund-gives}

pub data Request : Type 0 where
  reserving : Principal → String → ℕ → Request
  refunding : Option ℕ → String → ℕ → Request

unfoldable pub serve : ℕ → Request → List Usage → List Usage
serve month (reserving p kind units) t = (reserve month p kind units t).1
serve month (refunding user kind units) t = (refund month user kind units t).1

unfoldable pub serve_all : ℕ → List Request → List Usage → List Usage
unfolding serve
serve_all month [] t = t
serve_all month (r ∷ rs) t = serve_all month rs (serve month r t)

-- The reservations made for `user` come from a plain account whose limit of `k` is `limit`.
abbrev pub IsLimited : ℕ → QuotaKind → ℕ → Request → Type 0
IsLimited user k limit (reserving p kind units) =
    p.user_id ≡ user → (is_admin p ≡ false) × (p.quota_limits k ≡ some limit)
IsLimited user k limit (refunding u kind units) = Unit

reserve-unknown :
    (month : ℕ) (p : Principal) (kind : String) (units : ℕ) (t : List Usage)
    → parse_kind kind ≡ none
    → reserve month p kind units t ≡ (err value_error, t)
unfolding reserve
reserve-unknown month p kind units t unknown = rw unknown

module _ (month user : ℕ) (k : QuotaKind) (limit : ℕ) where
  reserve-within_limit :
      (p : Principal) (kind : String) (units : ℕ) (t : List Usage)
      → IsLimited user k limit (reserving p kind units)
      → get_usage user month t k ≤ limit
      → get_usage user month (reserve month p kind units t).1 k ≤ limit
  reserve-within_limit p kind units t plain below = elim (Option-cases (parse_kind kind)) [
    | inl unknown ↦ rw (reserve-unknown month p kind units t unknown) below
    | inr (j, parsed) ↦ ground (
      arith,
      get_usage-reserve month p kind units t j k user month parsed,
      reserve_exact month p kind units t j limit parsed,
    )
  ]

  refund-within_limit :
      (u : Option ℕ) (kind : String) (units : ℕ) (t : List Usage)
      → get_usage user month t k ≤ limit
      → get_usage user month (refund month u kind units t).1 k ≤ limit
  unfolding refund
  refund-within_limit none kind units t below = elim (Option-cases (parse_kind kind)) [
    | inl unknown ↦ rw unknown below
    | inr (j, parsed) ↦ rw parsed below
  ]
  refund-within_limit (some u) kind units t below = elim (Option-cases (parse_kind kind)) [
    | inl unknown ↦ rw unknown below
    | inr (j, parsed) ↦
        let (gave, left) = refund-gives month kind units t u j k user month parsed in ground arith
  ]

  -- A count that starts within the limit is within it after any reservations and refunds.
  pub serve_all-within_limit :
      (rs : List Request) (t : List Usage)
      → All (IsLimited user k limit) rs
      → get_usage user month t k ≤ limit
      → get_usage user month (serve_all month rs t) k ≤ limit
  unfolding serve_all
  serve_all-within_limit [] t plain below = below
  serve_all-within_limit (reserving p kind units ∷ rs) t plain below =
      serve_all-within_limit rs (reserve month p kind units t).1 plain.1
        (reserve-within_limit p kind units t plain.0 below)
  serve_all-within_limit (refunding u kind units ∷ rs) t plain below =
      serve_all-within_limit rs (refund month u kind units t).1 plain.1
        (refund-within_limit u kind units t below)

-- A refund of what was just reserved restores every count.
pub refund-reserve :
    (month : ℕ) (p : Principal) (kind : String) (units : ℕ) (t : List Usage)
    → (reserve month p kind units t).0 ≡ ok true
    → (user' period' : ℕ) (j : QuotaKind)
    → let t' = (reserve month p kind units t).1 in
      get_usage user' period' (refund month (some p.user_id) kind units t').1 j
      ≡ get_usage user' period' t j
refund-reserve month p kind units t granted user' period' j =
    elim (Option-cases (parse_kind kind)) [
      | inl unknown ↦ cc (granted, reserve-unknown month p kind units t unknown)
      | inr (k, parsed) ↦ ground (
        arith,
        get_usage-reserve month p kind units t k j user' period' parsed,
        refund-gives month kind units (reserve month p kind units t).1 p.user_id k j user' period'
            parsed,
      )
    ]
