-- ===== src/Reading/Edits.antt =====
-- The edits of `ReadingMigrationService` (reading/application/migration.py), each in a transaction.
use reading_wiki.Prelude.{
  lower, ℕ, String, Bool, true, not, ◌&&◌, Option, none, some, ltb, leb, if◌then◌else◌, truthy,
  strip, str_eq, get_or, opt_eq,
}
use reading_wiki.Errors.{
  Result, pure, lift, raise_if, or_raise, atomically, when◌then◌else◌, ◌>>=◌, ◌>>◌, not_found,
  conflict, validation_failed,
}
use reading_wiki.Identity.Principal.{Principal}
use reading_wiki.Catalog.Novels.{Novel}
use reading_wiki.Reading.Tables.{
  Contribution, Reading, manual_edit, ContributionStatus, pending, auto_merged,
}
use reading_wiki.Reading.Overlays.{
  chapter_version, update_base_content, write_overlay, erase_overlay, reanchor_overlay, get_overlay,
  create_contribution, get_contribution, mark_contribution_accepted, write_rejection, is_pending,
}

abbrev pub text_of : Option String → String
text_of content = strip (get_or content "")

abbrev pub status_for : Bool → ContributionStatus
status_for auto = if auto then auto_merged else pending

-- `base_version or 1`
abbrev pub base_of : Contribution → ℕ
base_of c = if leb c.base_version 0 then 1 else c.base_version

-- `resolved or offered`
abbrev pub content_of : String → Contribution → String
content_of resolved c = if truthy resolved then resolved else c.content

module _ (readable editable : ℕ → Option Principal → Result Novel) where
  unfoldable pub edit_base_content : ℕ → ℕ → Option String → Principal → Reading ℕ
  unfolding ◌>>=◌ chapter_version update_base_content
  edit_base_content i number content p = atomically (do
    _ ← lift (editable i (some p))
    raise_if (not (truthy (text_of content))) validation_failed
    _ ← chapter_version i number
    update_base_content i number (text_of content) none)

  unfoldable pub save_overlay : ℕ → ℕ → Option String → Principal → Reading (Unit {0})
  unfolding ◌>>=◌ chapter_version write_overlay
  save_overlay i number content p = atomically (do
    _ ← lift (readable i (some p))
    raise_if (not (truthy (text_of content))) validation_failed
    version ← chapter_version i number
    write_overlay i number p.user_id (text_of content) version manual_edit)

  unfoldable pub delete_overlay : ℕ → ℕ → Principal → Reading (Unit {0})
  unfolding ◌>>=◌ erase_overlay
  delete_overlay i number p =
      atomically (do _ ← lift (readable i (some p)); erase_overlay i number p.user_id)

  -- The branches of `resolve_overlay`; any other choice was refused before.
  unfoldable pub resolve_as : String → ℕ → ℕ → Option String → Principal → ℕ → Reading (Unit {0})
  unfolding ◌>>=◌ erase_overlay reanchor_overlay write_overlay
  resolve_as choice i number content p version =
      when str_eq choice "base"
      then erase_overlay i number p.user_id
      else (when str_eq choice "mine" then reanchor_overlay i number p.user_id version else (do
        raise_if (not (truthy (text_of content))) validation_failed
        write_overlay i number p.user_id (text_of content) version manual_edit))

  abbrev pub is_choice : String → Bool
  is_choice t = if str_eq t "base" then true else if str_eq t "mine" then true else str_eq t "merge"

  unfoldable pub resolve_overlay :
      ℕ → ℕ → Option String → Option String → Principal → Reading (Unit {0})
  unfolding ◌>>=◌ chapter_version resolve_as
  resolve_overlay i number choice content p = atomically (do
    _ ← lift (readable i (some p))
    raise_if (not (is_choice (lower (get_or choice "")))) validation_failed
    version ← chapter_version i number
    resolve_as (lower (get_or choice "")) i number content p version)

  unfoldable pub contribute : ℕ → ℕ → Principal → Reading (ContributionStatus × ℕ)
  unfolding ◌>>=◌ get_overlay chapter_version create_contribution update_base_content
  contribute i number p = atomically (do
    novel ← lift (readable i (some p))
    found ← get_overlay i number p.user_id
    overlay ← or_raise found conflict
    version ← chapter_version i number
    let auto = opt_eq novel.contribution_policy "auto" && leb version overlay.base_version
    k ←
        create_contribution i number p.user_id overlay.content overlay.base_version
          (status_for auto)
    when auto
        then (do
          _ ← update_base_content i number overlay.content (some p.user_id)
          pure (status_for auto, k))
        else pure (status_for auto, k))

  unfoldable pub accept_contribution : ℕ → ℕ → Option String → Principal → Reading (Unit {0})
  unfolding ◌>>=◌ get_contribution chapter_version update_base_content mark_contribution_accepted
  accept_contribution i k resolved p = atomically (do
    _ ← lift (editable i (some p))
    found ← get_contribution i k
    c ← or_raise found not_found
    raise_if (not (is_pending c.status)) conflict
    version ← chapter_version i c.chapter
    raise_if (ltb (base_of c) version && not (truthy (text_of resolved))) conflict
    _ ← update_base_content i c.chapter (content_of (text_of resolved) c) (some c.from_user_id)
    mark_contribution_accepted k p.user_id (content_of (text_of resolved) c))

  unfoldable pub reject_contribution : ℕ → ℕ → Principal → Reading (Unit {0})
  unfolding ◌>>=◌ write_rejection
  reject_contribution i k p = atomically (do
    _ ← lift (editable i (some p))
    updated ← write_rejection i k p.user_id
    raise_if (not updated) not_found)
