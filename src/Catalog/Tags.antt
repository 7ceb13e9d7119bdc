-- ===== src/Catalog/Tags.antt =====
-- The tags of a novel: catalog/domain/tags.py.
pub mod Clean
mod Tests
use Prim.Native.Char.{Char, code}
use Prim.Native.String.{String}
use mathlib.Core.List.{map}
use reading_wiki.Prelude.{
  ℕ, zero, suc, ◌-◌, Bool, true, false, ◌&&◌, ◌||◌, Option, none, some, List, [], ◌∷◌, ◌++◌, leb,
  ltb, if◌then◌else◌, str_eq, lower, strip, select, count_where,
}
use reading_wiki.Errors.{Result, ok, err, validation_failed}

unfoldable pub member : String → List String → Bool
member t [] = false
member t (u ∷ us) = str_eq u t || member t us

-- `STATUS_TAG_RADIO_GROUPS`, and `STATUS_TAGS`
abbrev pub status_group : List String
status_group = "ongoing" ∷ ("finished" ∷ ("hiatus" ∷ []))

abbrev pub translation_group : List String
translation_group = "translation_ongoing" ∷ ("translation_completed" ∷ [])

abbrev pub genre_tags : List String
genre_tags =
    "action"
    ∷ ("adventure"
        ∷ ("romance"
            ∷ ("fantasy"
                ∷ ("sci_fi"
                    ∷ ("comedy" ∷ ("drama" ∷ ("horror" ∷ ("mystery" ∷ ("slice_of_life" ∷ [])))))))))

abbrev pub status_tags : List String
status_tags = status_group ++ (translation_group ++ genre_tags)

abbrev pub clean_tag : String → String
clean_tag t = lower (strip t)

-- `dict.fromkeys(tags)`, after the tags of `seen`
unfoldable pub unique : List String → List String → List String
unfolding member
unique seen [] = []
unique seen (t ∷ ts) = elim (member t seen) [
  | true ↦ unique seen ts
  | false ↦ t ∷ unique (t ∷ seen) ts
]

abbrev pub is_known : String → Bool
is_known t = member t status_tags

abbrev pub known_tags : List String → List String
known_tags raw = select is_known (unique [] (map clean_tag raw))

abbrev pub in_group : List String → String → Bool
in_group group t = member t group

abbrev pub too_many : List String → List String → Bool
too_many group tags = ltb 1 (count_where (in_group group) tags)

unfoldable pub clean_status_tags : Option (List String) → Result (List String)
unfolding unique select lower strip count_where
clean_status_tags none = ok []
clean_status_tags (some raw) =
    let tags : List String = known_tags raw in
    if too_many status_group tags || too_many translation_group tags
    then err validation_failed
    else ok tags
