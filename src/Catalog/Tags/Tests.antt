-- ===== src/Catalog/Tags/Tests.antt =====
-- Tags with spaces, capitals, an unknown one and one twice.
use mathlib.Core.List.{map}
use reading_wiki.Prelude.{◌≡◌, refl, true, ◌&&◌, String, List, [], ◌∷◌, some}
use reading_wiki.Errors.{ok}
use reading_wiki.Catalog.Tags.{member, is_known, clean_tag, clean_status_tags}
use reading_wiki.Catalog.Tags.Clean.{IsDistinct, is_clean, clean_status_tags-known}

abbrev raw_tags : List String
raw_tags = " Ongoing" ∷ ("pirates" ∷ ("drama" ∷ ("ONGOING " ∷ [])))

abbrev clean_tags : List String
clean_tags = "ongoing" ∷ ("drama" ∷ [])

raw_tags_clean : clean_status_tags (some raw_tags) ≡ ok clean_tags
unfolding clean_status_tags
raw_tags_clean = refl

clean_status_tags-known_example :
    IsDistinct clean_tags
    × ((member "drama" clean_tags ≡ (is_known "drama" && member "drama" (map clean_tag raw_tags)))
        × ((is_clean clean_tags ≡ true) × (clean_status_tags (some clean_tags) ≡ ok clean_tags)))
clean_status_tags-known_example = clean_status_tags-known raw_tags clean_tags "drama" raw_tags_clean
