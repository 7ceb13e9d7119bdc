-- ===== src/Reading/Spoilers/Tests.antt =====
-- A reader of a public novel of the catalog, who opens its first two chapters and moves to the last.
use reading_wiki.Prelude.{
  ◌≡◌, refl, true, false, ℕ, none, some, List, [], ◌∷◌, get_or, select, first_match,
}
use reading_wiki.Errors.{ok}
use reading_wiki.Identity.Principal.{Principal, Role, AccountStatus}
use reading_wiki.Catalog.Novels.{Novel, CatalogDb, public_novel, can_read}
use reading_wiki.Catalog.Access.{require_readable}
use reading_wiki.Reading.Tables.{Chapter, ReadingDb, ceiling_of, greatest, numbers}
use reading_wiki.Reading.Progress.{at, EffectiveCeiling, effective_ceiling}
use reading_wiki.Reading.Openings.{Readable, Call, open_one, move, call_all, all_opened}
use reading_wiki.Reading.Ceiling.{IsWithin, first_chapter, last_chapter}
use reading_wiki.Reading.Spoilers.{effective_ceiling-opened}

abbrev reader : Principal
reader = record {
  user_id = 5;
  role = Role.user;
  status = AccountStatus.active;
  email_verified = true;
  quota_limits = λ k. none;
}

abbrev shared_novel : Novel
shared_novel = record {
  id = 1;
  owner_id = some 7;
  visibility = public_novel;
  contribution_policy = some "manual";
  title = "Cradle";
  text_of = λ c. none;
  codex_enabled = some true;
  status_tags = none;
}

abbrev catalog : CatalogDb
catalog = record { novels = shared_novel ∷ []; entries = []; suggestions = []; next_suggestion = 1 }

abbrev readable : Readable
readable i p = (require_readable i p catalog).0

abbrev chapter : ℕ → Chapter
chapter n = record {
  novel_id = 1;
  number = n;
  content = some "text";
  source_id = none;
  original_text = none;
  is_translated = false;
  content_version = some 1;
}

abbrev db : ReadingDb
db = record {
  chapters = chapter 1 ∷ (chapter 2 ∷ (chapter 3 ∷ []));
  progress = [];
  bookmarks = [];
  overlays = [];
  contributions = [];
  next_bookmark = 1;
  next_contribution = 1;
}

abbrev calls : List (Readable × Call)
calls =
    (readable, open_one 1 (at 2) (some reader))
    ∷ ((readable, open_one 1 (at 1) (some reader)) ∷ ((readable, move 1 reader (at 3) (at 1)) ∷ []))

opened_two : all_opened 1 5 db.chapters calls ≡ 2 ∷ (1 ∷ [])
unfolding all_opened require_readable first_match can_read
opened_two = refl

reads : readable 1 (some reader) ≡ ok shared_novel
unfolding require_readable first_match can_read
reads = refl

three : numbers 1 db ≡ 1 ∷ (2 ∷ (3 ∷ []))
unfolding select
three = refl

unopened : ceiling_of 1 5 db ≡ none
unfolding first_match
unopened = refl

effective_ceiling-opened_example :
    (c : EffectiveCeiling) × ((effective_ceiling readable 1
          (some reader)
          (some (at 3))
          (call_all 1 2 calls db)
        ≡ (ok c, call_all 1 2 calls db))
      × IsWithin
          (first_chapter 1 db)
          (last_chapter 1 db)
          (get_or (greatest (all_opened 1 5 db.chapters calls)) (first_chapter 1 db))
          c)
effective_ceiling-opened_example =
    effective_ceiling-opened 1 2 1 reader readable (some (at 3)) calls db 1 (2 ∷ (3 ∷ [])) reads
      three unopened
