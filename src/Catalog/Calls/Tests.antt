-- ===== src/Catalog/Calls/Tests.antt =====
-- A private and a global novel, their owner, and two strangers.
use reading_wiki.Prelude.{ℕ, ◌≡◌, refl, true, false, none, some, List, [], ◌∷◌, first_match}
use reading_wiki.Identity.Principal.{Principal, Role, AccountStatus}
use reading_wiki.Catalog.Novels.{
  Novel, CatalogDb, private_novel, global_novel, can_edit, has_id, title, Visibility,
}
use reading_wiki.Catalog.Calls.{
  Call, publish, update, suggest, call_all, owner_in, global_in, call_all-row_of_other,
  call_all-hands,
}

abbrev novel : ℕ → ℕ → Visibility → Novel
novel i owner visibility = record {
  id = i;
  owner_id = some owner;
  visibility = visibility;
  contribution_policy = some "manual";
  title = "Cradle";
  text_of = λ c. none;
  codex_enabled = some false;
  status_tags = none;
}

abbrev db : CatalogDb
db = record {
  novels = novel 1 7 private_novel ∷ (novel 2 8 global_novel ∷ []);
  entries = [];
  suggestions = [];
  next_suggestion = 1;
}

abbrev reader : ℕ → Principal
reader user = record {
  user_id = user;
  role = Role.user;
  status = AccountStatus.active;
  email_verified = true;
  quota_limits = λ k. none;
}

abbrev calls : List (Principal × Call)
calls =
    (reader 9, publish 1 (some "public"))
    ∷ ((reader 8, suggest 1 ("drama" ∷ []) none)
        ∷ ((reader 9, update 1 (title (some "Mine") ∷ [])) ∷ []))

call_all-row_of_other_example :
    first_match (has_id 1) (call_all calls db).novels ≡ some (novel 1 7 private_novel)
unfolding can_edit first_match
call_all-row_of_other_example =
    call_all-row_of_other 1 (novel 1 7 private_novel) calls db (refl, (refl, (refl, tt))) refl

abbrev plain_calls : List (Principal × Call)
plain_calls = (reader 8, publish 2 (some "private")) ∷ ((reader 7, publish 1 (some "global")) ∷ [])

call_all-hands_example :
    (owner_in (first_match (has_id 2) (call_all plain_calls db).novels)
      ≡ owner_in (first_match (has_id 2) db.novels))
    × (global_in (first_match (has_id 2) (call_all plain_calls db).novels)
        ≡ global_in (first_match (has_id 2) db.novels))
call_all-hands_example = call_all-hands 2 plain_calls db (refl, (refl, tt))
