-- ===== src/Identity/Quota/Kinds.antt =====
-- `QUOTA_KINDS` of identity/application/quota.py.
use reading_wiki.Prelude.{String, Option, none, some, Bool, true, false, if◌then◌else◌, str_eq}

pub data QuotaKind : Type 0 where
  translated_chapters ocr_pages codex_builds tts_chapters : QuotaKind

-- A kind is a text wherever it enters; a text that names none is refused by `validate_kind`.
unfoldable pub parse_kind : String → Option QuotaKind
parse_kind s =
    if str_eq s "translated_chapters"
    then some translated_chapters
    else if str_eq s "ocr_pages"
    then some ocr_pages
    else if str_eq s "codex_builds"
    then some codex_builds
    else if str_eq s "tts_chapters"
    then some tts_chapters
    else none

abbrev pub same_kind : QuotaKind → QuotaKind → Bool
same_kind translated_chapters translated_chapters = true
same_kind ocr_pages ocr_pages = true
same_kind codex_builds codex_builds = true
same_kind tts_chapters tts_chapters = true
same_kind _ _ = false
