-- ===== src/Acquisition/Document.antt =====
-- The blocks of a parsed document: acquisition/domain/document.py, at the fields that the
-- segmentation reads.
use reading_wiki.Prelude.{ℕ, String, Bool, true, false, Option, List}

pub data BlockKind : Type 0 where
  heading paragraph image scene_break page_break caption footnote blank : BlockKind

abbrev pub is_heading : BlockKind → Bool
is_heading heading = true
is_heading _ = false

abbrev pub is_paragraph : BlockKind → Bool
is_paragraph paragraph = true
is_paragraph _ = false

-- `kind in TEXT_KINDS`
abbrev pub is_text : BlockKind → Bool
is_text heading = true
is_text paragraph = true
is_text caption = true
is_text footnote = true
is_text _ = false

-- `spine_idx` and `page` are `loc.get("spine_idx")` and `loc.get("page")`.
pub record Block : Type 0 where
  pub kind : BlockKind
  pub text : String
  pub level : Option ℕ
  pub spine_idx : Option ℕ
  pub page : Option ℕ

-- `language`, `spine` and `toc` are entries of `meta`: `toc` is `pdf_toc`, in which an entry that
-- cannot be read is none, and a page below 1 is written 0.
pub record Document : Type 0 where
  pub blocks : List Block
  pub is_pdf : Bool
  pub language : String
  pub spine : List (ℕ × Option String)
  pub toc : List (Option (String × ℕ))
