-- ===== src/Identity/RateLimits.antt =====
-- Fixed-window rate limits: identity/adapters/outbound/rate_limit.py. A limit that is negative does
-- what 0 does. The seconds that an error carries are left out.
pub mod Windows
mod Tests
use reading_wiki.Prelude.{
  ℕ, zero, suc, ◌+◌, ◌-◌, ◌≤◌, ◌<◌, ◌≡◌, refl, String, Bool, true, false, not, ◌&&◌, ◌||◌, Option,
  none, some, List, [], ◌∷◌, ◌==◌, leb, ltb, arith, if◌then◌else◌, str_eq, eq_iff, eq_refl, ==_iff,
  subst, All, Bool-cases, Option-cases, inl, inr,
}
use reading_wiki.Errors.{
  Exec, Result, ok, err, pure, gets, modify, raise_if, when◌then◌else◌, ◌>>=◌, ◌>>◌, rate_limited,
}

pub record Bucket : Type 0 where
  pub count : ℕ
  pub reset_at : ℕ

-- `auth_rate_limits`, by its primary key.
abbrev pub Buckets : Type 0
Buckets = String → Option Bucket

pub record RateLimit : Type 0 where
  pub limit : ℕ
  pub window_seconds : ℕ

abbrev pub put : String → Option Bucket → Buckets → Buckets
put key row table k = if str_eq k key then row else table k

abbrev pub is_full : ℕ → ℕ → Option Bucket → Bool
is_full now limit none = false
is_full now limit (some b) = ltb now b.reset_at && leb limit b.count

unfoldable pub ensure_allowed : ℕ → String → RateLimit → Exec Buckets (Unit {0})
unfolding ◌>>=◌
ensure_allowed now key rate =
    when rate.limit == 0
    then pure tt
    else (do row ← gets (λ t. t key); raise_if (is_full now rate.limit row) rate_limited)

-- `ON CONFLICT (bucket_key) DO UPDATE`
abbrev pub counted : ℕ → ℕ → Option Bucket → Bucket
counted now window none = record { count = 1; reset_at = now + window }
counted now window (some b) =
    if leb b.reset_at now
    then record { count = 1; reset_at = now + window }
    else record b { count = b.count + 1 }

unfoldable pub consume : ℕ → String → RateLimit → Exec Buckets (Unit {0})
unfolding ◌>>=◌
consume now key rate = when rate.limit == 0 then pure tt else (do
  row ← gets (λ t. counted now rate.window_seconds (t key))
  modify (λ t. put key (some row) t)
  raise_if (ltb rate.limit row.count) rate_limited)

unfoldable pub clear : String → Exec Buckets (Unit {0})
unfolding ◌>>=◌
clear key = modify (λ t. put key none t)

abbrev pub unless_expired : ℕ → Option Bucket → Option Bucket
unless_expired now none = none
unless_expired now (some b) = if leb b.reset_at now then none else some b

unfoldable pub cleanup : ℕ → Exec Buckets (Unit {0})
unfolding ◌>>=◌
cleanup now = modify (λ t k. unless_expired now (t k))

-- ── calls ──

pub data Call : Type 0 where
  charge check : ℕ → String → RateLimit → Call
  forget : String → Call
  sweep : ℕ → Call

unfoldable pub call : Call → Buckets → Result (Unit {0}) × Buckets
unfolding consume ensure_allowed clear cleanup
call (charge now key rate) t = consume now key rate t
call (check now key rate) t = ensure_allowed now key rate t
call (forget key) t = clear key t
call (sweep now) t = cleanup now t

abbrev pub is_ok : Result (Unit {0}) → Bool
is_ok (ok a) = true
is_ok (err e) = false

abbrev pub charges : String → Call → Bool
charges key (charge now k rate) = str_eq key k
charges key _ = false

-- How many charges of the key are granted.
unfoldable pub grants : String → List Call → Buckets → ℕ
unfolding call
grants key [] t = 0
grants key (c ∷ cs) t =
    let rest = grants key cs (call c t).1 in
    if charges key c && is_ok (call c t).0 then suc rest else rest
