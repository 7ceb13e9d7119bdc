-- ===== src/Work/Settlement.antt =====
-- The quota reservation of a job: work/adapters/outbound/transactions.py, the workflow
-- novelwiki/workflows/finalize_job_quota.py, and `finalize`, `increment_quota_consumed` and
-- `release_translation_reservation_for_fallback` of work/adapters/outbound/postgres.py.
use reading_wiki.Prelude.{
  ℕ, ◌+◌, ◌-◌, String, Bool, true, false, not, ◌&&◌, Option, none, some, leb, ltb, if◌then◌else◌,
  truthy,
}
use reading_wiki.Errors.{on_option, pure, raise, atomically, when◌then◌else◌, ◌>>=◌, runtime_error}
use reading_wiki.Identity.Quota.Service.{transaction_refund}
use reading_wiki.Work.Job.{Job, Kind, translate, is_subscription}
use reading_wiki.Work.Store.{Work, update_returning, with_usage}

-- `JobQuotaSettlement`
pub record Settlement : Type 0 where
  pub user_id : Option ℕ
  pub novel_id : Option ℕ
  pub quota_kind : Option String
  pub refundable_units : ℕ

abbrev pub is_translate : Kind → Bool
is_translate translate = true
is_translate _ = false

-- A subscription translation counts its own units as it commits them.
unfoldable pub settled_units : Bool → Job → ℕ
settled_units success j =
    if success && not (is_subscription j.execution_backend && is_translate j.kind)
    then j.quota_reserved
    else j.quota_consumed

abbrev pub unsettled : Job → Bool
unsettled j = not j.quota_finalized

unfoldable pub settle : Bool → ℕ → Job → Job
unfolding settled_units
settle success now j = record j {
  quota_finalized = true;
  quota_consumed = settled_units success j;
  updated_at = now;
}

abbrev pub settlement_of : Job → Settlement
settlement_of j = record {
  user_id = j.user_id;
  novel_id = j.novel_id;
  quota_kind = j.quota_kind;
  refundable_units = j.quota_reserved - j.quota_consumed;
}

abbrev pub has_quota_kind : Option String → Bool
has_quota_kind none = false
has_quota_kind (some k) = truthy k

-- The refund of a settlement. It is skipped with no kind, no user or nothing left over.
unfoldable pub refund_to : Option String → Option ℕ → ℕ → Work ℕ
refund_to none user units = pure 0
refund_to (some k) none units = pure 0
refund_to (some k) (some u) units =
    when truthy k && ltb 0 units
    then with_usage (λ month. transaction_refund month (some u) k units)
    else pure 0

-- `finalize_job_quota`: one unit of work over the job's row and the requester's quota. A row that
-- is missing or settled already gives no settlement.
unfoldable pub finalize_job_quota : ℕ → Bool → Work (Option Settlement × ℕ)
finalize_job_quota job_id success = atomically (do
  row ← update_returning job_id unsettled (settle success)
  on_option row (pure (none, 0)) (λ j. do
    refunded ← refund_to j.quota_kind j.user_id (j.quota_reserved - j.quota_consumed)
    pure (some (settlement_of j), refunded)))

unfoldable pub finalize : ℕ → Bool → Work (Unit {0})
finalize job_id success = do settlement ← finalize_job_quota job_id success; pure tt

-- `release_translation_reservation_for_fallback`
unfoldable pub release_translation_reservation : ℕ → Work (Unit {0})
release_translation_reservation job_id = finalize job_id false

abbrev pub has_room : ℕ → Job → Bool
has_room units j = not j.quota_finalized && leb (j.quota_consumed + units) j.quota_reserved

unfoldable pub consume_units : ℕ → ℕ → Job → Job
consume_units units now j = record j { quota_consumed = j.quota_consumed + units; updated_at = now }

unfoldable pub increment_quota_consumed : ℕ → ℕ → Work (Unit {0})
increment_quota_consumed job_id units = when leb units 0 then pure tt else do
  row ← update_returning job_id (has_room units) (consume_units units)
  on_option row (raise runtime_error) (λ j. pure tt)
