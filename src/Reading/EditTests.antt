-- ===== src/Reading/EditTests.antt =====
-- Two readers with their own text of a chapter, an offer of one, and an editor who accepts it.
use reading_wiki.Prelude.{
  ℕ, ◌≡◌, refl, true, false, Option, none, some, List, [], ◌∷◌, first_match, All,
}
use reading_wiki.Errors.{Result, ok}
use reading_wiki.Identity.Principal.{Principal, Role, AccountStatus}
use reading_wiki.Catalog.Novels.{Novel, public_novel}
use reading_wiki.Reading.Tables.{
  Overlay, manual_edit, Contribution, ContributionStatus, rejected, pending, ReadingDb, Chapter,
}
use reading_wiki.Reading.Overlays.{is_contribution, contribution_to}
use reading_wiki.Reading.Overlays
use reading_wiki.Reading.Sequences.{Edit, offer, accept, Caller, apply_all}
use reading_wiki.Reading.Anchored.{IsSound, apply_all-IsSound}
use reading_wiki.Reading.Contributions.{IsClosed}
use reading_wiki.Reading.Decided.{apply_all-decided}

abbrev user : ℕ → Principal
user u = record {
  user_id = u;
  role = Role.user;
  status = AccountStatus.active;
  email_verified = true;
  quota_limits = λ k. none;
}

abbrev shared_novel : Novel
shared_novel = record {
  id = 1;
  owner_id = some 7;
  visibility = public_novel;
  contribution_policy = some "auto";
  title = "Cradle";
  text_of = λ c. none;
  codex_enabled = some true;
  status_tags = none;
}

abbrev allowed : ℕ → Option Principal → Result Novel
allowed i p = ok shared_novel

abbrev caller : ℕ → Caller
caller u = record { principal = user u; readable = allowed; editable = allowed }

abbrev overlay : ℕ → Overlay
overlay u = record {
  user_id = u;
  novel_id = 1;
  chapter = 1;
  content = "mine";
  base_version = 1;
  origin = manual_edit;
  conflict = false;
}

abbrev contribution : ℕ → ContributionStatus → Contribution
contribution k status = record {
  id = k;
  novel_id = 1;
  from_user_id = 5;
  chapter = 1;
  content = "offered";
  base_version = 1;
  status = status;
  reviewed_by = none;
}

abbrev chapter : Chapter
chapter = record {
  novel_id = 1;
  number = 1;
  content = some "text";
  source_id = none;
  original_text = none;
  is_translated = false;
  content_version = some 1;
}

abbrev db : ReadingDb
db = record {
  chapters = chapter ∷ [];
  progress = [];
  bookmarks = [];
  overlays = overlay 5 ∷ (overlay 6 ∷ []);
  contributions = contribution 1 rejected ∷ (contribution 2 pending ∷ []);
  next_bookmark = 1;
  next_contribution = 3;
}

abbrev edits : List (Caller × Edit)
edits =
    (caller 7, accept 1 2 none)
    ∷ ((caller 6, offer 1 1)
        ∷ ((caller 5, offer 1 1) ∷ ((caller 7, accept 1 1 (some "again")) ∷ [])))

db-IsSound : IsSound db
unfolding first_match
db-IsSound = (refl, (refl, tt))

apply_all-IsSound_example : IsSound (apply_all edits db)
apply_all-IsSound_example = apply_all-IsSound edits db db-IsSound

closed : All (IsClosed 1) db.contributions
closed = (refl, (refl, tt))

decided_row : first_match (is_contribution 1) db.contributions ≡ some (contribution 1 rejected)
unfolding first_match
decided_row = refl

apply_all-decided_example :
    first_match (is_contribution 1) (apply_all edits db).contributions
    ≡ some (contribution 1 rejected)
apply_all-decided_example =
    apply_all-decided 1 (contribution 1 rejected) edits db refl closed decided_row

found : first_match (contribution_to 1 2) db.contributions ≡ some (contribution 2 pending)
unfolding first_match
found = refl
