-- ===== src/Reading/Ingestion/Tests.antt =====
-- A chapter with an overlay of each of two readers is scraped again.
use reading_wiki.Prelude.{
  ℕ, ◌≡◌, refl, true, false, none, some, [], ◌∷◌, first_match, put_first, map_where, select,
}
use mathlib.Core.List.{map}
use reading_wiki.Reading.Tables.{Chapter, Overlay, manual_edit, ReadingDb}
use reading_wiki.Reading.Ingestion.{
  Source, upsert_ingested_chapter, replaced, delete_source_chapters,
}

abbrev source : Source
source = record { id = 4; novel_id = 1; is_raw = false }

abbrev chapter : Chapter
chapter = record {
  novel_id = 1;
  number = 3;
  content = some "text";
  source_id = some 4;
  original_text = none;
  is_translated = false;
  content_version = some 2;
}

abbrev overlay : ℕ → ℕ → Overlay
overlay user n = record {
  user_id = user;
  novel_id = 1;
  chapter = n;
  content = "mine";
  base_version = 2;
  origin = manual_edit;
  conflict = false;
}

abbrev rows : ReadingDb
rows = record {
  chapters = chapter ∷ [];
  progress = [];
  bookmarks = [];
  overlays = overlay 5 3 ∷ (overlay 6 3 ∷ []);
  contributions = [];
  next_bookmark = 1;
  next_contribution = 1;
}

-- Both overlays are marked when the text has changed.
marked :
    map (λ o. o.conflict) (upsert_ingested_chapter source 3 "new text" true none rows).1.overlays
    ≡ true ∷ (true ∷ [])
unfolding upsert_ingested_chapter replaced first_match put_first map_where
marked = refl

-- A replacement deletes the chapters first: the minimum is then not looked at.
falls_back :
    map
      (λ c. c.content_version)
      (upsert_ingested_chapter source 3 "new text" true
        (some 3)
        (delete_source_chapters 4 rows).1).1.chapters
    ≡ some 1 ∷ []
unfolding upsert_ingested_chapter delete_source_chapters first_match select map_where
falls_back = refl
