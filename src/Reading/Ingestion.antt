-- ===== src/Reading/Ingestion.antt =====
-- Chapters that a scrape or an import writes: `PostgresReadingIngestionTransactionService` of
-- reading/adapters/outbound/ingestion.py, at the columns of the model.
pub mod Ingested
mod Tests
use reading_wiki.Prelude.{
  ℕ, ◌+◌, String, Bool, true, false, not, ◌&&◌, ◌||◌, Option, none, some, List, [], ◌∷◌, ◌++◌, ◌==◌,
  leb, ltb, max, if◌then◌else◌, first_match, put_first, map_where, select, is_some, get_or, opt_eq,
}
use mathlib.Core.List.{map}
use reading_wiki.Errors.{pure, gets, modify, on_option, when◌then◌else◌, ◌>>=◌, ◌>>◌}
use reading_wiki.Reading.Tables.{Chapter, Reading, is_chapter}
use reading_wiki.Reading.Overlays.{version_or_one, version_of, left_behind, in_conflict}

pub record Source : Type 0 where
  pub id : ℕ
  pub novel_id : ℕ
  pub is_raw : Bool

abbrev pub of_source : ℕ → Chapter → Bool
of_source source c = elim c.source_id [ none ↦ false | some i ↦ i == source ]

unfoldable pub source_versions : ℕ → Reading (List (ℕ × ℕ))
unfolding ◌>>=◌
source_versions source =
    gets (λ s. map (λ c. (c.number, version_of c)) (select (of_source source) s.chapters))

unfoldable pub delete_source_chapters : ℕ → Reading (Unit {0})
unfolding ◌>>=◌
delete_source_chapters source =
    modify (λ s. record s { chapters = select (λ c. not (of_source source c)) s.chapters })

abbrev pub is_one_of : List ℕ → ℕ → Bool
is_one_of [] n = false
is_one_of (m ∷ ms) n = m == n || is_one_of ms n

unfoldable pub mark_overlay_conflicts : ℕ → List ℕ → Reading (Unit {0})
unfolding ◌>>=◌
mark_overlay_conflicts i numbers = modify (λ s. record s {
  overlays = map_where (λ o. o.novel_id == i && is_one_of numbers o.chapter) in_conflict s.overlays;
})

-- The UPDATE of overlays after a new version.
abbrev pub mark_behind : ℕ → ℕ → ℕ → Reading (Unit {0})
mark_behind i number version = modify (λ s. record s {
  overlays = map_where (left_behind i number version none) in_conflict s.overlays;
})

unfoldable pub other_source_numbers : ℕ → ℕ → Reading (List ℕ)
unfolding ◌>>=◌
other_source_numbers i source = gets (λ s.
    map (λ c. c.number) (select (λ c. c.novel_id == i && not (of_source source c)) s.chapters))

-- `GREATEST(COALESCE(content_version,1),$3)`
abbrev pub at_least : ℕ → Chapter → Chapter
at_least minimum c = record c { content_version = some (max (get_or c.content_version 1) minimum) }

-- `int(actual or minimum)`
abbrev pub actual_or : ℕ → Option Chapter → ℕ
actual_or minimum none = minimum
actual_or minimum (some c) =
    let actual = max (get_or c.content_version 1) minimum in if actual == 0 then minimum else actual

unfoldable pub preserve_content_version : ℕ → ℕ → ℕ → Reading ℕ
unfolding ◌>>=◌
preserve_content_version i number minimum = do
  found ← gets (λ s. first_match (is_chapter i number) s.chapters)
  modify
      (λ s. record s { chapters = map_where (is_chapter i number) (at_least minimum) s.chapters })
  mark_behind i number (actual_or minimum found)
  pure (actual_or minimum found)

-- What a source holds as the original and as the text to read.
abbrev pub original_of : Source → String → Option String
original_of src text = if src.is_raw then some text else none

abbrev pub content_of : Source → String → Option String
content_of src text = if src.is_raw then none else some text

abbrev pub same_text : Option String → Option String → Bool
same_text none none = true
same_text (some a) b = opt_eq b a
same_text none (some b) = false

abbrev pub base_changed : Source → String → Chapter → Bool
base_changed src text c =
    not (same_text c.content (content_of src text))
    || not (same_text c.original_text (original_of src text))

-- `GREATEST(CASE … END, COALESCE($15,1))`
abbrev pub raised_version : Bool → Option ℕ → Option ℕ → ℕ
raised_version changed version minimum =
    max (if changed then get_or version 1 + 1 else get_or version 1) (get_or minimum 1)

unfoldable pub replaced : Source → String → Option ℕ → Chapter → Chapter
replaced src text minimum c = record c {
  source_id = some src.id;
  original_text = original_of src text;
  content = content_of src text;
  is_translated = false;
  content_version = some (raised_version (base_changed src text c) c.content_version minimum);
}

abbrev pub ingested : Source → ℕ → String → Chapter
ingested src number text = record {
  novel_id = src.novel_id;
  number = number;
  content = content_of src text;
  source_id = some src.id;
  original_text = original_of src text;
  is_translated = false;
  content_version = some 1;
}

-- `minimum_content_version and int(new_version or 1) >= minimum_content_version`
abbrev pub reaches : Option ℕ → ℕ → Bool
reaches none version = false
reaches (some m) version = ltb 0 m && leb m version

-- The INSERT takes the default version; only ON CONFLICT looks at the minimum.
unfoldable pub upsert_ingested_chapter : Source → ℕ → String → Bool → Option ℕ → Reading Bool
unfolding ◌>>=◌
upsert_ingested_chapter src number text force minimum = do
  existing ← gets (λ s. first_match (is_chapter src.novel_id number) s.chapters)
  when is_some existing && not force
      then pure false
      else on_option existing
          (do
            modify (λ s. record s { chapters = s.chapters ++ (ingested src number text ∷ []) })
            when reaches minimum 1
                then (do mark_behind src.novel_id number 1; pure true)
                else pure true)
          (λ c. do
            let version = version_of (replaced src text minimum c)
            modify (λ s. record s {
              chapters =
                  put_first (is_chapter src.novel_id number) (replaced src text minimum c)
                    s.chapters;
            })
            when base_changed src text c || reaches minimum version
                then (do mark_behind src.novel_id number version; pure true)
                else pure true)
