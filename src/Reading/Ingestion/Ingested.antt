-- ===== src/Reading/Ingestion/Ingested.antt =====
-- A chapter that is read again from its source: `upsert_ingested_chapter` of
-- reading/adapters/outbound/ingestion.py where there is a row.
use reading_wiki.Prelude.{
  ℕ, ◌≡◌, refl, ◌∙◌, String, true, not, ◌||◌, Option, some, List, leb, ltb, first_match, put_first,
  first_match_holds, first_match-put, get_or,
}
use reading_wiki.Reading.Tables.{Chapter, ReadingDb, is_chapter}
use reading_wiki.Reading.Overlays.{version_of}
use reading_wiki.Reading.Anchors.{AllAnchored}
use reading_wiki.Reading.Ingestion.{Source, base_changed, replaced}

module _ (chapters : List Chapter) (i number : ℕ) (c new : Chapter)
    (there : first_match (is_chapter i number) chapters ≡ some c)
    (same : is_chapter i number new ≡ true) where
  abbrev after : List Chapter
  after = put_first (is_chapter i number) new chapters

  found_after : first_match (is_chapter i number) after ≡ some new
  found_after = first_match-put (is_chapter i number) new chapters same ∙ rw there refl

-- The chapter `c` has been read again, and the rows are `s`: the row is the one read, the overlays
-- are not behind unmarked, and the version has grown as it should.
abbrev pub IsReread : Source → ℕ → String → Option ℕ → Chapter → ReadingDb → Type 0
IsReread src number text minimum c s =
    (first_match (is_chapter src.novel_id number) s.chapters ≡ some (replaced src text minimum c))
    × (AllAnchored s.chapters s.overlays
        × ((leb (version_of c) (version_of (replaced src text minimum c)) ≡ true)
            × ((leb (get_or minimum 0) (version_of (replaced src text minimum c)) ≡ true)
                × (not (base_changed src text c)
                    || ltb (get_or c.content_version 1) (version_of (replaced src text minimum c)))
                  ≡ true)))

module _ (src : Source) (number : ℕ) (text : String) (minimum : Option ℕ) (s : ReadingDb)
    (c : Chapter) (there : first_match (is_chapter src.novel_id number) s.chapters ≡ some c) where
  same_place : is_chapter src.novel_id number (replaced src text minimum c) ≡ true
  unfolding replaced
  same_place = first_match_holds (is_chapter src.novel_id number) s.chapters {x = c} there

  found :
      first_match
        (is_chapter src.novel_id number)
        (put_first (is_chapter src.novel_id number) (replaced src text minimum c) s.chapters)
      ≡ some (replaced src text minimum c)
  found =
      found_after s.chapters src.novel_id number c (replaced src text minimum c) there same_place
