-- ===== src/Catalog/Access.antt =====
-- `CatalogAccessService` of catalog/application/access.py, and the tag suggestions of
-- catalog/application/migration.py and transactions.py.
pub mod Writes
pub mod Suggestions
use reading_wiki.Prelude.{
  lower, ℕ, String, Bool, true, false, not, ◌&&◌, ◌||◌, Option, none, some, List, [], ◌∷◌,
  if◌then◌else◌, first_match, select, truthy, strip, str_eq, is_some, get_or,
}
use reading_wiki.Errors.{
  Result, ok, err, pure, raise, lift, raise_if, or_raise, atomically, when◌then◌else◌, ◌>>=◌, ◌>>◌,
  not_found, forbidden, validation_failed, conflict,
}
use reading_wiki.Identity.Principal.{Principal, is_admin}
use reading_wiki.Catalog.Tags.{clean_status_tags, member}
use reading_wiki.Catalog.Novels.{
  Visibility, private_novel, public_novel, global_novel, Novel, Catalog, owned_by, is_shared,
  is_global, can_edit, can_read, get_access, insert_library_entry, delete_library_entry, set_shelf,
  write_visibility, Field, shelf, status_tags, contribution_policy, unknown, update_metadata, any,
  Suggestion, accepted, rejected,
}
use reading_wiki.Catalog.Suggestions.{
  insert_suggestion, get_tag_suggestion, is_pending, apply_tags, review_tag_suggestion,
}

abbrev pub readable_row : Option Principal → Option Novel → Bool
readable_row p none = false
readable_row p (some novel) = can_read novel p

unfoldable pub require_readable : ℕ → Option Principal → Catalog Novel
unfolding ◌>>=◌ get_access
require_readable i p = do
  row ← get_access i
  raise_if (not (readable_row p row)) not_found
  or_raise row not_found

unfoldable pub require_editable : ℕ → Option Principal → Catalog Novel
unfolding ◌>>=◌ require_readable
require_editable i p = do
  novel ← require_readable i p
  raise_if (not (can_edit novel p)) forbidden
  pure novel

unfoldable pub add_to_library : ℕ → Principal → Catalog (Unit {0})
unfolding ◌>>=◌ require_readable insert_library_entry
add_to_library i p = do _ ← require_readable i (some p); insert_library_entry i p.user_id

unfoldable pub remove_from_library : ℕ → Principal → Catalog (Unit {0})
unfolding ◌>>=◌ delete_library_entry
remove_from_library i p = delete_library_entry i p.user_id

abbrev pub word : Option String → String
word t = lower (strip (get_or t ""))

unfoldable pub parse_visibility : String → Option Visibility
parse_visibility t =
    if str_eq t "private"
    then some private_novel
    else if str_eq t "public"
    then some public_novel
    else if str_eq t "global"
    then some global_novel
    else none

unfoldable pub set_visibility : ℕ → Principal → Option String → Catalog Visibility
unfolding ◌>>=◌ require_editable write_visibility
set_visibility i p requested = do
  v ← or_raise (parse_visibility (word requested)) validation_failed
  novel ← require_editable i (some p)
  raise_if ((is_global v || is_global novel.visibility) && not (is_admin p)) forbidden
  write_visibility i v p.user_id
  pure v

-- ── update_novel ──

pub data Outcome : Type 0 where
  noop success : Outcome

abbrev pub no_fields : List Field → Bool
no_fields [] = true
no_fields (f ∷ fs) = false

abbrev pub is_shelf : Field → Bool
is_shelf (shelf t) = true
is_shelf _ = false

abbrev pub is_tags : Field → Bool
is_tags (status_tags ts) = true
is_tags _ = false

-- `fields.get("shelf")`
unfoldable pub shelf_in : List Field → Option (Option String)
shelf_in [] = none
shelf_in (f ∷ fs) = elim f [ shelf t ↦ some t | _ ↦ shelf_in fs ]

abbrev pub shelves : List String
shelves = "to_read" ∷ ("reading" ∷ ("completed" ∷ []))

abbrev pub or_null : String → Option String
or_null t = if truthy t then some t else none

unfoldable pub put_on_shelf : ℕ → ℕ → Option (Option String) → Catalog (Unit {0})
unfolding ◌>>=◌ set_shelf
put_on_shelf i user none = pure tt
put_on_shelf i user (some t) = do
  raise_if (truthy (word t) && not (member (word t) shelves)) validation_failed
  set_shelf i user (or_null (word t))

abbrev pub cleaned : Result (List String) → Result (List Field) → Result (List Field)
cleaned (ok ts) (ok fs) = ok (status_tags (some ts) ∷ fs)
cleaned (ok ts) (err e) = err e
cleaned (err e) fs = err e

abbrev pub kept : Field → Result (List Field) → Result (List Field)
kept f (ok fs) = ok (f ∷ fs)
kept f (err e) = err e

-- `fields["status_tags"] = clean_status_tags(fields["status_tags"])`
unfoldable pub clean_fields : List Field → Result (List Field)
clean_fields [] = ok []
clean_fields (f ∷ fs) = elim f [
  | status_tags ts ↦ cleaned (clean_status_tags ts) (clean_fields fs)
  | g ↦ kept g (clean_fields fs)
]

abbrev pub wrong_policy : Option String → Bool
wrong_policy none = true
wrong_policy (some t) = not (str_eq t "manual") && not (str_eq t "auto")

abbrev pub is_wrong : Field → Bool
is_wrong (contribution_policy t) = wrong_policy t
is_wrong _ = false

-- `update_novel` after the shelf, for the other fields.
unfoldable pub change_fields : ℕ → Principal → Novel → List Field → Catalog Outcome
unfolding ◌>>=◌ update_metadata
change_fields i p novel fields = do
  raise_if (any is_tags fields && not (can_edit novel (some p))) forbidden
  clean ← lift (clean_fields fields)
  when no_fields clean then pure success else (do
    raise_if (not (can_edit novel (some p))) forbidden
    raise_if (any is_wrong clean) validation_failed
    update_metadata i clean
    pure success)

-- Each statement stands, whatever follows: the service runs on a pool, outside a transaction.
unfoldable pub update_novel : ℕ → Principal → List Field → Catalog Outcome
unfolding ◌>>=◌ require_readable put_on_shelf
update_novel i p requested = when no_fields requested then pure noop else (do
  novel ← require_readable i (some p)
  put_on_shelf i p.user_id (shelf_in requested)
  change_fields i p novel (select (λ f. not (is_shelf f)) requested))

-- ── tag suggestions ──

unfoldable pub suggest_tags : ℕ → Principal → List String → Option String → Catalog ℕ
unfolding ◌>>=◌ require_readable insert_suggestion
suggest_tags i p tags remark = atomically (do
  novel ← require_readable i (some p)
  raise_if (owned_by novel.owner_id p.user_id || is_admin p) validation_failed
  raise_if (not (is_shared novel.visibility)) forbidden
  clean ← lift (clean_status_tags (some tags))
  insert_suggestion i p.user_id clean (or_null (strip (get_or remark ""))))

unfoldable pub accept_tag_suggestion : ℕ → ℕ → Principal → Catalog (List String)
unfolding ◌>>=◌ require_editable get_tag_suggestion apply_tags review_tag_suggestion
accept_tag_suggestion i k p = atomically (do
  _ ← require_editable i (some p)
  row ← get_tag_suggestion i k
  g ← or_raise row not_found
  raise_if (not (is_pending g.status)) conflict
  clean ← lift (clean_status_tags (some g.tags))
  apply_tags i clean
  _ ← review_tag_suggestion k accepted p.user_id
  pure clean)

abbrev pub open_row : Option Suggestion → Bool
open_row none = false
open_row (some g) = is_pending g.status

unfoldable pub reject_tag_suggestion : ℕ → ℕ → Principal → Catalog (Unit {0})
unfolding ◌>>=◌ require_editable get_tag_suggestion review_tag_suggestion
reject_tag_suggestion i k p = atomically (do
  _ ← require_editable i (some p)
  row ← get_tag_suggestion i k
  raise_if (not (open_row row)) not_found
  _ ← review_tag_suggestion k rejected p.user_id
  pure tt)
