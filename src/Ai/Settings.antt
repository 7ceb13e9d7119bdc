-- ===== src/Ai/Settings.antt =====
-- What policy.py reads from the settings.
use reading_wiki.Prelude.{ℕ, String, Bool, true, Option, none, some}
use reading_wiki.Work.Job.{Backend}
use reading_wiki.Ai.Backend.{Workload}

pub record Settings : Type 0 where
  pub agy_enabled : Bool
  pub openai_codex_enabled : Bool
  pub agy_codex_enabled : Bool
  pub openai_codex_codex_enabled : Bool
  pub agy_model_translate : String
  pub agy_model_codex : String
  pub agy_model_segment : String
  pub agy_model_ocr : String
  pub openai_codex_model_translate : String
  pub openai_codex_model_codex : String
  pub model_translate : String
  pub model_flash : String
  pub model_pro : String
  pub segment_model : String
  pub gemini_vision_model : String
  pub agy_worker_health_ttl_seconds : ℕ
  pub openai_codex_worker_health_ttl_seconds : ℕ

abbrev pub globally_enabled : Settings → Backend → Bool
globally_enabled cfg Backend.api = true
globally_enabled cfg Backend.agy = cfg.agy_enabled
globally_enabled cfg Backend.openai_codex = cfg.openai_codex_enabled

abbrev pub codex_enabled : Settings → Backend → Bool
codex_enabled cfg Backend.api = true
codex_enabled cfg Backend.agy = cfg.agy_codex_enabled
codex_enabled cfg Backend.openai_codex = cfg.openai_codex_codex_enabled

abbrev pub workload_globally_enabled : Settings → Workload → Backend → Bool
workload_globally_enabled cfg Workload.codex_extract b = codex_enabled cfg b
workload_globally_enabled cfg _ b = true

abbrev pub agy_model : Settings → Workload → Option String
agy_model cfg Workload.translate_batch = some cfg.agy_model_translate
agy_model cfg Workload.codex_extract = some cfg.agy_model_codex
agy_model cfg Workload.segment_import = some cfg.agy_model_segment
agy_model cfg Workload.ocr_pages = some cfg.agy_model_ocr
agy_model cfg _ = none

abbrev pub openai_codex_model : Settings → Workload → Option String
openai_codex_model cfg Workload.translate_batch = some cfg.openai_codex_model_translate
openai_codex_model cfg Workload.codex_extract = some cfg.openai_codex_model_codex
openai_codex_model cfg _ = none

abbrev pub api_model : Settings → Workload → Option String
api_model cfg Workload.translate_batch = some cfg.model_translate
api_model cfg Workload.codex_extract = some cfg.model_flash
api_model cfg Workload.segment_import = some cfg.segment_model
api_model cfg Workload.ocr_pages = some cfg.gemini_vision_model
api_model cfg Workload.ask = some cfg.model_pro
api_model cfg Workload.profile_synthesis = some cfg.model_pro

unfoldable pub model_for : Settings → Workload → Backend → Option String
model_for cfg w Backend.api = api_model cfg w
model_for cfg w Backend.agy = agy_model cfg w
model_for cfg w Backend.openai_codex = openai_codex_model cfg w

abbrev pub health_ttl_seconds : Settings → Backend → ℕ
health_ttl_seconds cfg Backend.agy = cfg.agy_worker_health_ttl_seconds
health_ttl_seconds cfg _ = cfg.openai_codex_worker_health_ttl_seconds
