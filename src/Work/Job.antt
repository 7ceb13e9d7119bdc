-- ===== src/Work/Job.antt =====
-- A row of the `jobs` table (novelwiki/db/schema.py, from line 926) and the words it is made of.
-- Times are in seconds. JSON columns hold the text of the document.
use reading_wiki.Prelude.{
  ℕ, String, Bool, true, false, Option, none, some, str_eq, if◌then◌else◌, ◌==◌,
}

-- `KINDS`
pub data Kind : Type 0 where
  codex_illustrate scrape codex_build translate agy_smoke openai_codex_smoke : Kind

-- `kind not in KINDS`: a text that names no kind is refused.
unfoldable pub parse_kind : String → Option Kind
parse_kind s =
    if str_eq s "codex_illustrate"
    then some codex_illustrate
    else if str_eq s "scrape"
    then some scrape
    else if str_eq s "codex_build"
    then some codex_build
    else if str_eq s "translate"
    then some translate
    else if str_eq s "agy_smoke"
    then some agy_smoke
    else if str_eq s "openai_codex_smoke"
    then some openai_codex_smoke
    else none

abbrev pub same_kind : Kind → Kind → Bool
same_kind codex_illustrate codex_illustrate = true
same_kind scrape scrape = true
same_kind codex_build codex_build = true
same_kind translate translate = true
same_kind agy_smoke agy_smoke = true
same_kind openai_codex_smoke openai_codex_smoke = true
same_kind _ _ = false

abbrev pub is_smoke : Kind → Bool
is_smoke agy_smoke = true
is_smoke openai_codex_smoke = true
is_smoke _ = false

pub data Status : Type 0 where
  queued running waiting_provider done failed canceled : Status

-- `ACTIVE_STATUSES` and `TERMINAL_STATUSES`; `TRIGGER_STATUSES` holds `queued` alone.
abbrev pub is_active : Status → Bool
is_active queued = true
is_active running = true
is_active waiting_provider = true
is_active _ = false

abbrev pub is_terminal : Status → Bool
is_terminal done = true
is_terminal failed = true
is_terminal canceled = true
is_terminal _ = false

abbrev pub is_queued : Status → Bool
is_queued queued = true
is_queued _ = false

abbrev pub is_running : Status → Bool
is_running running = true
is_running _ = false

abbrev pub is_waiting : Status → Bool
is_waiting waiting_provider = true
is_waiting _ = false

abbrev pub is_canceled_status : Status → Bool
is_canceled_status canceled = true
is_canceled_status _ = false

pub data Backend : Type 0 where
  api agy openai_codex : Backend

abbrev pub same_backend : Backend → Backend → Bool
same_backend api api = true
same_backend agy agy = true
same_backend openai_codex openai_codex = true
same_backend _ _ = false

-- `execution_backend IN ('agy','openai_codex')`
abbrev pub is_subscription : Backend → Bool
is_subscription api = false
is_subscription _ = true

pub data RequestedBackend : Type 0 where
  auto api agy openai_codex : RequestedBackend

-- The human-readable step, a constructor for each text that the code writes; `said` is a text of
-- a handler.
pub data Stage : Type 0 where
  queued claimed done failed canceled cancel_requested : Stage
  retrying : ℕ → ℕ → Stage
  waiting_for : Backend → Stage
  queued_after_wait canceled_worker_lost failed_worker_lost requeued : Stage
  switching_to_api : Backend → Stage
  said : String → Stage

pub record Job : Type 0 where
  pub id : ℕ
  pub kind : Kind
  pub novel_id : Option ℕ
  pub user_id : Option ℕ
  pub status : Status
  pub stage : Stage
  pub progress : String
  pub options : String
  pub idempotency_key : Option String
  pub quota_kind : Option String
  pub quota_reserved : ℕ
  pub quota_consumed : ℕ
  pub quota_finalized : Bool
  pub error : Option String
  pub attempts : ℕ
  pub max_attempts : ℕ
  pub claim_token : Option String
  pub claimed_at : Option ℕ
  pub backend_requested : RequestedBackend
  pub execution_backend : Backend
  pub backend_policy_version : Option ℕ
  pub backend_fallback_allowed : Bool
  pub backend_fallback_from : Option Backend
  pub backend_model : Option String
  pub not_before : Option ℕ
  pub cancel_requested_at : Option ℕ
  pub created_at : ℕ
  pub updated_at : ℕ

abbrev pub has_id : ℕ → Job → Bool
has_id i j = j.id == i
