-- ===== src/Ai/Backend.antt =====
-- Workloads, requests and decisions: ai_execution/domain/backend.py. The backends are those of a
-- job's row.
use reading_wiki.Prelude.{
  ℕ, String, Bool, true, false, Option, none, some, List, [], ◌∷◌, str_eq, if◌then◌else◌,
}
use reading_wiki.Work.Job.{Backend, RequestedBackend, Kind}

pub data Workload : Type 0 where
  translate_batch codex_extract segment_import ocr_pages ask profile_synthesis : Workload

abbrev pub same_workload : Workload → Workload → Bool
same_workload Workload.translate_batch Workload.translate_batch = true
same_workload Workload.codex_extract Workload.codex_extract = true
same_workload Workload.segment_import Workload.segment_import = true
same_workload Workload.ocr_pages Workload.ocr_pages = true
same_workload Workload.ask Workload.ask = true
same_workload Workload.profile_synthesis Workload.profile_synthesis = true
same_workload _ _ = false

-- `workload in workloads`
abbrev pub member : Workload → List Workload → Bool
member w [] = false
member w (x ∷ xs) = if same_workload w x then true else member w xs

-- `Workload(text)`, where the text names one.
unfoldable pub parse_workload : String → Option Workload
parse_workload s =
    if str_eq s "translate_batch"
    then some Workload.translate_batch
    else if str_eq s "codex_extract"
    then some Workload.codex_extract
    else if str_eq s "segment_import"
    then some Workload.segment_import
    else if str_eq s "ocr_pages"
    then some Workload.ocr_pages
    else if str_eq s "ask"
    then some Workload.ask
    else if str_eq s "profile_synthesis"
    then some Workload.profile_synthesis
    else none

-- `RequestedBackend(text)`
unfoldable pub parse_requested : String → Option RequestedBackend
parse_requested s =
    if str_eq s "auto"
    then some RequestedBackend.auto
    else if str_eq s "api"
    then some RequestedBackend.api
    else if str_eq s "agy"
    then some RequestedBackend.agy
    else if str_eq s "openai_codex"
    then some RequestedBackend.openai_codex
    else none

-- `ExecutionBackend(text)`
unfoldable pub parse_backend : String → Option Backend
parse_backend s =
    if str_eq s "api"
    then some Backend.api
    else if str_eq s "agy"
    then some Backend.agy
    else if str_eq s "openai_codex"
    then some Backend.openai_codex
    else none

-- `IMPLEMENTED_AGY_WORKLOADS`, `IMPLEMENTED_OPENAI_CODEX_WORKLOADS` and `_implemented`.
abbrev pub implemented : Backend → List Workload
implemented Backend.api = []
implemented _ = Workload.translate_batch ∷ Workload.codex_extract ∷ []

abbrev pub workload_for_job_kind : Kind → Option Workload
workload_for_job_kind Kind.translate = some Workload.translate_batch
workload_for_job_kind Kind.codex_build = some Workload.codex_extract
workload_for_job_kind Kind.codex_illustrate = some Workload.codex_extract
workload_for_job_kind _ = none

-- A constructor for each text of `reason`.
pub data Reason : Type 0 where
  explicit_api global_disabled not_granted user_policy_default_api : Reason
  workload_disabled workload_unimplemented user_policy_default : Reason
  explicit : Backend → Reason

pub record BackendDecision : Type 0 where
  pub requested : RequestedBackend
  pub resolved : Backend
  pub workload : Workload
  pub reason : Reason
  pub policy_version : Option ℕ
  pub fallback_to_api : Bool
  pub model : Option String

-- `req is RequestedBackend.AUTO`
abbrev pub is_auto : RequestedBackend → Bool
is_auto RequestedBackend.auto = true
is_auto _ = false

abbrev pub is_api : Backend → Bool
is_api Backend.api = true
is_api _ = false

-- The backend that a request names, `ExecutionBackend(req.value)`.
abbrev pub named_backend : RequestedBackend → Option Backend
named_backend RequestedBackend.auto = none
named_backend RequestedBackend.api = some Backend.api
named_backend RequestedBackend.agy = some Backend.agy
named_backend RequestedBackend.openai_codex = some Backend.openai_codex
