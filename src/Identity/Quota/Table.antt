-- ===== src/Identity/Quota/Table.antt =====
-- The `quota_usage` table, one row for a user and a month, and `PostgresQuotaRepository`
-- (identity/adapters/outbound/postgres_quota.py). A transaction locks the row that it reads, so a
-- call is one step on the table. A period is the number of its month.
use reading_wiki.Prelude.{
  ℕ, ◌+◌, ◌-◌, Bool, true, false, ◌&&◌, Option, none, some, List, [], ◌∷◌, ◌++◌, ltb, leb, ◌==◌,
  if◌then◌else◌, min, is_some, first_match, put_first,
}
use reading_wiki.Identity.Quota.Kinds.{QuotaKind}

pub record Usage : Type 0 where
  pub user_id : ℕ
  pub period : ℕ
  pub translated_chapters : ℕ
  pub ocr_pages : ℕ
  pub codex_builds : ℕ
  pub tts_chapters : ℕ

unfoldable pub used : QuotaKind → Usage → ℕ
used QuotaKind.translated_chapters u = u.translated_chapters
used QuotaKind.ocr_pages u = u.ocr_pages
used QuotaKind.codex_builds u = u.codex_builds
used QuotaKind.tts_chapters u = u.tts_chapters

-- `UPDATE quota_usage SET kind = n`
unfoldable pub set_used : QuotaKind → ℕ → Usage → Usage
set_used QuotaKind.translated_chapters n u = record u { translated_chapters = n }
set_used QuotaKind.ocr_pages n u = record u { ocr_pages = n }
set_used QuotaKind.codex_builds n u = record u { codex_builds = n }
set_used QuotaKind.tts_chapters n u = record u { tts_chapters = n }

abbrev pub is_row : ℕ → ℕ → Usage → Bool
is_row user period u = u.user_id == user && u.period == period

abbrev pub fresh_row : ℕ → ℕ → Usage
fresh_row user period = record {
  user_id = user;
  period = period;
  translated_chapters = 0;
  ocr_pages = 0;
  codex_builds = 0;
  tts_chapters = 0;
}

abbrev pub find_row : ℕ → ℕ → List Usage → Option Usage
find_row user period = first_match (is_row user period)

abbrev pub row_used : Option Usage → QuotaKind → ℕ
row_used none k = 0
row_used (some u) k = used k u

-- `get_usage`, at one kind: 0 where the row is missing.
unfoldable pub get_usage : ℕ → ℕ → List Usage → QuotaKind → ℕ
get_usage user period t = row_used (find_row user period t)

-- `INSERT … ON CONFLICT DO NOTHING`
unfoldable pub ensure_row : ℕ → ℕ → List Usage → List Usage
ensure_row user period t =
    if is_some (find_row user period t) then t else t ++ fresh_row user period ∷ []

-- `UPDATE … WHERE user_id = $1 AND period = $2`, the primary key.
unfoldable pub set_row : ℕ → ℕ → QuotaKind → ℕ → List Usage → List Usage
set_row user period k n t = elim (find_row user period t) [
  | none ↦ t
  | some u ↦ put_first (is_row user period) (set_used k n u) t
]

unfoldable pub bump : ℕ → ℕ → QuotaKind → ℕ → List Usage → List Usage
bump user period k units t =
    let t' = ensure_row user period t in
    set_row user period k (get_usage user period t' k + units) t'

unfoldable pub try_reserve : ℕ → ℕ → QuotaKind → ℕ → ℕ → List Usage → Bool × List Usage
try_reserve user period k units limit t =
    let t' = ensure_row user period t in
    let now_used = get_usage user period t' k in
    if ltb limit (now_used + units)
    then (false, t')
    else (true, set_row user period k (now_used + units) t')

-- `give` of the refund, and the table after it. A missing row refunds nothing.
unfoldable pub refund : ℕ → ℕ → QuotaKind → ℕ → List Usage → ℕ × List Usage
refund user period k units t = elim (find_row user period t) [
  | none ↦ (0, t)
  | some u ↦
      let give = min units (used k u) in
      if leb give 0 then (0, t) else (give, set_row user period k (used k u - give) t)
]
