-- ===== src/Reading/Overlays.antt =====
-- Overlays, which are a reader's own text of a chapter, and contributions, which offer one to the
-- shared text: reading/application/migration.py and the statements of
-- reading/adapters/outbound/postgres.py on them. `readable` and `editable` stand for
-- `require_readable` and `require_editable` of the catalog, as they answer while the call runs.
use reading_wiki.Prelude.{
  ℕ, suc, String, Bool, true, false, not, ◌&&◌, Option, none, some, List, [], ◌∷◌, ◌++◌, ◌==◌, ltb,
  if◌then◌else◌, first_match, put_first, map_where, select, is_some,
}
use reading_wiki.Errors.{
  pure, gets, modify, or_raise, on_option, when◌then◌else◌, ◌>>=◌, ◌>>◌, not_found,
}
use reading_wiki.Reading.Tables.{
  Chapter, Overlay, Origin, Contribution, ContributionStatus, pending, accepted, rejected, Reading,
  is_chapter,
}

-- ── statements ──

-- `int(version or 1)`: NULL and 0 count as 1.
abbrev pub version_or_one : Option ℕ → ℕ
version_or_one none = 1
version_or_one (some v) = if v == 0 then 1 else v

abbrev pub version_of : Chapter → ℕ
version_of c = version_or_one c.content_version

unfoldable pub chapter_version : ℕ → ℕ → Reading ℕ
unfolding ◌>>=◌
chapter_version i number = do
  found ← gets (λ s. first_match (is_chapter i number) s.chapters)
  c ← or_raise found not_found
  pure (version_of c)

abbrev pub is_overlay : ℕ → ℕ → ℕ → Overlay → Bool
is_overlay i number user o = o.user_id == user && (o.novel_id == i && o.chapter == number)

abbrev pub kept_user : Option ℕ → ℕ → Bool
kept_user none user = false
kept_user (some u) user = u == user

-- The overlays that the new version leaves behind.
abbrev pub left_behind : ℕ → ℕ → ℕ → Option ℕ → Overlay → Bool
left_behind i number version keep o =
    (o.novel_id == i && o.chapter == number)
    && (ltb o.base_version version && not (kept_user keep o.user_id))

abbrev pub in_conflict : Overlay → Overlay
in_conflict o = record o { conflict = true }

abbrev pub anchored : ℕ → Overlay → Overlay
anchored version o = record o { base_version = version; conflict = false }

abbrev pub anchor_kept : ℕ → ℕ → ℕ → Option ℕ → List Overlay → List Overlay
anchor_kept i number version none overlays = overlays
anchor_kept i number version (some user) overlays =
    map_where (is_overlay i number user) (anchored version) overlays

abbrev pub bumped : Option ℕ → Option ℕ
bumped none = none
bumped (some v) = some (suc v)

abbrev pub with_content : String → Chapter → Chapter
with_content content c = record c {
  content = some content;
  is_translated = true;
  content_version = bumped c.content_version;
}

-- `UPDATE chapters … RETURNING content_version`, with the rows that it leaves; a version that is
-- NULL comes back as no version.
unfoldable pub write_content : ℕ → ℕ → String → Reading (Option ℕ)
unfolding ◌>>=◌
write_content i number content = do
  found ← gets (λ s. first_match (is_chapter i number) s.chapters)
  on_option found (pure none) (λ c. do
    modify (λ s. record s {
      chapters = put_first (is_chapter i number) (with_content content c) s.chapters;
    })
    pure (bumped c.content_version))

unfoldable pub update_base_content : ℕ → ℕ → String → Option ℕ → Reading ℕ
unfolding ◌>>=◌ write_content
update_base_content i number content keep = do
  written ← write_content i number content
  version ← or_raise written not_found
  modify (λ s. record s {
    overlays =
        anchor_kept i number version keep
          (map_where (left_behind i number version keep) in_conflict s.overlays);
  })
  pure version

abbrev pub upsert_overlay : Overlay → List Overlay → List Overlay
upsert_overlay o overlays =
    elim (first_match (is_overlay o.novel_id o.chapter o.user_id) overlays) [
      | none ↦ overlays ++ (o ∷ [])
      | some old ↦ put_first (is_overlay o.novel_id o.chapter o.user_id) o overlays
    ]

-- Statement `save_overlay`.
unfoldable pub write_overlay : ℕ → ℕ → ℕ → String → ℕ → Origin → Reading (Unit {0})
unfolding ◌>>=◌
write_overlay i number user content version origin = modify (λ s. record s {
  overlays =
      upsert_overlay
        (record {
          user_id = user;
          novel_id = i;
          chapter = number;
          content = content;
          base_version = version;
          origin = origin;
          conflict = false;
        })
        s.overlays;
})

-- Statement `delete_overlay`.
unfoldable pub erase_overlay : ℕ → ℕ → ℕ → Reading (Unit {0})
unfolding ◌>>=◌
erase_overlay i number user =
    modify (λ s. record s { overlays = select (λ o. not (is_overlay i number user o)) s.overlays })

unfoldable pub reanchor_overlay : ℕ → ℕ → ℕ → ℕ → Reading (Unit {0})
unfolding ◌>>=◌
reanchor_overlay i number user version = modify (λ s. record s {
  overlays = map_where (is_overlay i number user) (anchored version) s.overlays;
})

unfoldable pub get_overlay : ℕ → ℕ → ℕ → Reading (Option Overlay)
unfolding ◌>>=◌
get_overlay i number user = gets (λ s. first_match (is_overlay i number user) s.overlays)

unfoldable pub create_contribution : ℕ → ℕ → ℕ → String → ℕ → ContributionStatus → Reading ℕ
unfolding ◌>>=◌
create_contribution i number user content version status = do
  next ← gets (λ s. s.next_contribution)
  modify (λ s. record s {
    contributions =
        s.contributions
        ++ (record {
          id = next;
          novel_id = i;
          from_user_id = user;
          chapter = number;
          content = content;
          base_version = version;
          status = status;
          reviewed_by = none;
        }
            ∷ []);
    next_contribution = suc next;
  })
  pure next

abbrev pub is_contribution : ℕ → Contribution → Bool
is_contribution k c = c.id == k

abbrev pub contribution_to : ℕ → ℕ → Contribution → Bool
contribution_to i k c = is_contribution k c && c.novel_id == i

abbrev pub is_pending : ContributionStatus → Bool
is_pending pending = true
is_pending _ = false

unfoldable pub get_contribution : ℕ → ℕ → Reading (Option Contribution)
unfolding ◌>>=◌
get_contribution i k = gets (λ s. first_match (contribution_to i k) s.contributions)

abbrev pub accept : String → ℕ → Contribution → Contribution
accept content reviewer c = record c {
  status = accepted;
  content = content;
  reviewed_by = some reviewer;
}

unfoldable pub mark_contribution_accepted : ℕ → ℕ → String → Reading (Unit {0})
unfolding ◌>>=◌
mark_contribution_accepted k reviewer content = modify (λ s. record s {
  contributions = map_where (is_contribution k) (accept content reviewer) s.contributions;
})

abbrev pub pending_to : ℕ → ℕ → Contribution → Bool
pending_to i k c = contribution_to i k c && is_pending c.status

abbrev pub reject : ℕ → Contribution → Contribution
reject reviewer c = record c { status = rejected; reviewed_by = some reviewer }

-- Statement `reject_contribution`: whether there was a row to reject.
unfoldable pub write_rejection : ℕ → ℕ → ℕ → Reading Bool
unfolding ◌>>=◌
write_rejection i k reviewer = do
  found ← gets (λ s. first_match (pending_to i k) s.contributions)
  modify (λ s. record s {
    contributions = map_where (pending_to i k) (reject reviewer) s.contributions;
  })
  pure (is_some found)
