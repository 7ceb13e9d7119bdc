-- ===== src/Acquisition/Titles.antt =====
-- What the title of a segment says: `_parse_number` and `_classify` of
-- acquisition/adapters/outbound/importer/segment.py. Numbers are in thousandths; a title's number
-- has three decimals at most. The compiled patterns are a parameter: what `search` or `match` says
-- of a title.
use Prim.Native.Char.{code}
use reading_wiki.Prelude.{
  ℕ, String, Bool, true, false, not, ◌||◌, Option, none, some, List, [], ◌∷◌, is_some,
  if◌then◌else◌, lower, contains, truthy, is_space, text_append,
}

-- `_NUM_PATTERNS` with the group that the first of them finds, `_LEADING_NUM`, `\bchapter\b`,
-- `_INTERLUDE_RE`, `_PROLOGUE_RE`, `_EPILOGUE_RE` and `_PART_RE`.
pub record Patterns : Type 0 where
  pub chapter_number : String → Option ℕ
  pub leading_number : String → Option ℕ
  pub says_chapter : String → Bool
  pub interlude : String → Bool
  pub prologue : String → Bool
  pub epilogue : String → Bool
  pub part : String → Bool

pub data SegmentKind : Type 0 where
  chapter interlude backmatter frontmatter : SegmentKind

abbrev pub is_chapter : SegmentKind → Bool
is_chapter chapter = true
is_chapter _ = false

abbrev pub is_interlude : SegmentKind → Bool
is_interlude interlude = true
is_interlude _ = false

abbrev pub is_frontmatter : SegmentKind → Bool
is_frontmatter frontmatter = true
is_frontmatter _ = false

-- `re.sub(r"\s+", " ", title)`
abbrev pub squeeze_after : Bool → String → String
squeeze_after spaced String.[] = String.[]
squeeze_after spaced (String.◌∷◌ c s) =
    let rest = squeeze_after (is_space (code c)) s in
    if is_space (code c) then (if spaced then rest else text_append " " rest) else String.◌∷◌ c rest

abbrev pub some_keyword : List String → String → Bool
some_keyword [] low = false
some_keyword (k ∷ ks) low = contains k low || some_keyword ks low

-- `_FRONT_KW`, `_BACK_KW` and `_EXTRA_KW`
abbrev pub front_keywords : List String
front_keywords =
    "copyright" ∷ "title page" ∷ "cover" ∷ "dedication" ∷ "acknowledg" ∷ "contents"
    ∷ "table of contents" ∷ "colophon" ∷ "also by" ∷ "praise for" ∷ "front matter" ∷ "imprint"
    ∷ "publisher" ∷ "isbn" ∷ "legal" ∷ "disclaimer" ∷ "newsletter" ∷ "foreword" ∷ "synopsis"
    ∷ "credits" ∷ []

abbrev pub back_keywords : List String
back_keywords =
    "about the author" ∷ "back matter" ∷ "preview" ∷ "teaser" ∷ "also available"
    ∷ "acknowledgements" ∷ []

abbrev pub extra_keywords : List String
extra_keywords =
    "image gallery" ∷ "gallery" ∷ "illustration" ∷ "artwork" ∷ "character sheet"
    ∷ "character profile" ∷ "characters" ∷ "locations" ∷ "pathways guide" ∷ "pathway guide"
    ∷ "world guide" ∷ "appendix" ∷ "glossary" ∷ "side story" ∷ "side stories" ∷ "audio drama"
    ∷ "drama cd" ∷ "omake" ∷ "bonus chapter" ∷ "bonus story" ∷ "short story" ∷ "afterword" ∷ []

module _ (pats : Patterns) where
  unfoldable pub parse_number : String → Option ℕ
  parse_number title =
      let t = squeeze_after false title in
      if not (truthy title)
      then none
      else elim (pats.chapter_number t) [ none ↦ pats.leading_number t | some n ↦ some n ]

  -- The kind of a segment, and whether it is included.
  unfoldable pub classify : String → Option ℕ → SegmentKind × Bool
  classify title number =
      let low = lower title in
      if is_some number || pats.says_chapter low
      then (if pats.interlude low then interlude else chapter, true)
      else if pats.interlude low
      then (interlude, true)
      else if pats.prologue low
      then (chapter, true)
      else if pats.epilogue low
      then (interlude, true)
      else if some_keyword extra_keywords low
      then (backmatter, true)
      else if some_keyword back_keywords low
      then (backmatter, false)
      else if some_keyword front_keywords low
      then (frontmatter, false)
      else (chapter, true)
