-- ===== src/Identity/Quota/Service.antt =====
-- `QuotaService` of identity/application/quota.py over the quota table. `month` is
-- `current_period()`; a call reads it once. Units and limits are not negative: for the guard
-- `units <= 0` a negative number of units is the same as 0.
use reading_wiki.Prelude.{
  ℕ, ◌+◌, ◌-◌, String, Bool, true, false, not, ◌||◌, Option, none, some, List, ltb, leb,
  if◌then◌else◌,
}
use reading_wiki.Errors.{
  Exec, ok, when◌then◌else◌, pure, raise, gets, or_raise, on_option, raise_if, modify, ◌>>=◌, ◌>>◌,
  value_error, forbidden, quota_exceeded,
}
use reading_wiki.Identity.Principal.{Principal, is_active, is_admin, spend_allowed}
use reading_wiki.Identity.Quota.Kinds.{
  QuotaKind, translated_chapters, ocr_pages, codex_builds, tts_chapters, parse_kind,
}
use reading_wiki.Identity.Quota.Table.{Usage}
use reading_wiki.Identity.Quota.Table

abbrev pub QuotaExec : Type 0 → Type 0
QuotaExec = Exec (List Usage)

unfoldable pub validate_kind : String → QuotaExec QuotaKind
unfolding ◌>>=◌
validate_kind kind = or_raise (parse_kind kind) value_error

unfoldable pub require_spend_allowed : Principal → QuotaExec (Unit {0})
unfolding spend_allowed ◌>>=◌
require_spend_allowed p = do
  raise_if (not (is_active p.status)) forbidden
  raise_if (not (spend_allowed p)) forbidden

-- `_limit`: the limit must be there for the kind.
unfoldable pub limit_of : Principal → QuotaKind → QuotaExec ℕ
unfolding ◌>>=◌
limit_of p k = or_raise (p.quota_limits k) value_error

unfoldable pub usage_of : ℕ → ℕ → QuotaKind → QuotaExec ℕ
unfolding ◌>>=◌
usage_of month user k = gets (λ t. Table.get_usage user month t k)

pub record Report : Type 0 where
  pub period : ℕ
  pub unlimited : Bool
  pub usage : QuotaKind → ℕ
  pub limits : QuotaKind → ℕ
  pub remaining : QuotaKind → Option ℕ

abbrev pub by_kind {ℓ} : {A : Type ℓ} → A → A → A → A → QuotaKind → A
by_kind a b c d translated_chapters = a
by_kind a b c d ocr_pages = b
by_kind a b c d codex_builds = c
by_kind a b c d tts_chapters = d

module _ (month : ℕ) where
  unfoldable pub usage_and_limits : Principal → QuotaExec Report
  unfolding ◌>>=◌ limit_of
  usage_and_limits p = do
    used ← gets (λ t. Table.get_usage p.user_id month t)
    a ← limit_of p translated_chapters
    b ← limit_of p ocr_pages
    c ← limit_of p codex_builds
    d ← limit_of p tts_chapters
    let limits = by_kind a b c d
    pure (record {
      period = month;
      unlimited = is_admin p;
      usage = used;
      limits = limits;
      remaining = λ k. if is_admin p then none else some (limits k - used k);
    })

  -- `max(0, limit - used)`; `none` is no limit.
  unfoldable pub remaining : Principal → String → QuotaExec (Option ℕ)
  unfolding ◌>>=◌ validate_kind usage_of limit_of
  remaining p kind = do
    k ← validate_kind kind
    when is_admin p
        then pure none
        else do used ← usage_of month p.user_id k; limit ← limit_of p k; pure (some (limit - used))

  unfoldable pub check_available : Principal → String → ℕ → QuotaExec (Unit {0})
  unfolding ◌>>=◌ validate_kind require_spend_allowed usage_of limit_of
  check_available p kind units = do
    k ← validate_kind kind
    require_spend_allowed p
    when leb units 0 || is_admin p then pure tt else do
      limit ← limit_of p k
      used ← usage_of month p.user_id k
      raise_if (ltb limit (used + units)) quota_exceeded

  unfoldable pub reserve : Principal → String → ℕ → QuotaExec Bool
  unfolding ◌>>=◌ validate_kind spend_allowed limit_of
  reserve p kind units = do
    k ← validate_kind kind
    when leb units 0
        then pure true
        else when not (spend_allowed p)
        then pure false
        else when is_admin p
        then (do modify (Table.bump p.user_id month k units); pure true)
        else (do
          limit ← limit_of p k
          λ t.
              let (granted, t') = Table.try_reserve p.user_id month k units limit t in
              (ok granted, t'))

  unfoldable pub check_and_reserve : Principal → String → ℕ → QuotaExec (Unit {0})
  unfolding ◌>>=◌ validate_kind require_spend_allowed reserve limit_of
  check_and_reserve p kind units = do
    k ← validate_kind kind
    require_spend_allowed p
    granted ← reserve p kind units
    -- the message of the refusal reads the limit
    when granted then pure tt else do limit ← limit_of p k; raise quota_exceeded

  -- The user is an id, or None.
  unfoldable pub refund : Option ℕ → String → ℕ → QuotaExec ℕ
  unfolding ◌>>=◌ validate_kind
  refund user kind units = do
    k ← validate_kind kind
    on_option user (pure 0) (λ u. when leb units 0 then pure 0 else λ t.
        let (give, t') = Table.refund u month k units t in (ok give, t'))

-- `PostgresQuotaTransactionService.refund` of identity/adapters/outbound/postgres_quota.py: the
-- repository checks the kind, after the tests for a user and for units.
unfoldable pub transaction_refund : ℕ → Option ℕ → String → ℕ → QuotaExec ℕ
unfolding ◌>>=◌ validate_kind
transaction_refund month none kind units = pure 0
transaction_refund month (some u) kind units = when leb units 0 then pure 0 else do
  k ← validate_kind kind
  λ t. let (give, t') = Table.refund u month k units t in (ok give, t')
