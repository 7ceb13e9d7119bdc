-- ===== src/Catalog/Novels.antt =====
-- The tables of the catalog and their statements: catalog/adapters/outbound/postgres.py, and who
-- may read and edit a novel: catalog/domain/policies.py.
use reading_wiki.Prelude.{
  ℕ, String, Bool, true, false, not, ◌&&◌, ◌||◌, Option, none, some, List, [], ◌∷◌, ◌++◌, ◌==◌,
  if◌then◌else◌, first_match, put_first, select,
}
use reading_wiki.Errors.{
  Exec, gets, modify, raise_if, when◌then◌else◌, ◌>>=◌, ◌>>◌, value_error, null_value,
}
use reading_wiki.Identity.Principal.{Principal, is_admin}

pub data Visibility : Type 0 where
  private_novel public_novel global_novel : Visibility

pub data TextColumn : Type 0 where
  author description cover_url : TextColumn

pub record Novel : Type 0 where
  pub id : ℕ
  pub owner_id : Option ℕ
  pub visibility : Visibility
  pub contribution_policy : Option String
  pub title : String
  pub text_of : TextColumn → Option String
  pub codex_enabled : Option Bool
  pub status_tags : Option (List String)

pub record LibraryEntry : Type 0 where
  pub user_id : ℕ
  pub novel_id : ℕ
  pub shelf : Option String

pub data ReviewStatus : Type 0 where
  pending accepted rejected : ReviewStatus

pub record Suggestion : Type 0 where
  pub id : ℕ
  pub novel_id : ℕ
  pub from_user_id : ℕ
  pub tags : List String
  pub note : Option String
  pub status : ReviewStatus
  pub reviewed_by : Option ℕ

-- `next_suggestion` is the sequence of ids.
pub record CatalogDb : Type 0 where
  pub novels : List Novel
  pub entries : List LibraryEntry
  pub suggestions : List Suggestion
  pub next_suggestion : ℕ

abbrev pub Catalog : Type 0 → Type 0
Catalog A = Exec CatalogDb A

-- ── policies ──

abbrev pub owned_by : Option ℕ → ℕ → Bool
owned_by none user = false
owned_by (some owner) user = owner == user

abbrev pub is_shared : Visibility → Bool
is_shared private_novel = false
is_shared _ = true

abbrev pub is_global : Visibility → Bool
is_global global_novel = true
is_global _ = false

unfoldable pub can_edit : Novel → Option Principal → Bool
can_edit novel none = false
can_edit novel (some p) = owned_by novel.owner_id p.user_id || is_admin p

unfoldable pub can_read : Novel → Option Principal → Bool
unfolding can_edit
can_read novel p = if is_shared novel.visibility then true else can_edit novel p

-- ── statements ──

abbrev pub has_id : ℕ → Novel → Bool
has_id i novel = novel.id == i

unfoldable pub get_access : ℕ → Catalog (Option Novel)
unfolding ◌>>=◌
get_access i = gets (λ s. first_match (has_id i) s.novels)

-- `UPDATE novels SET … WHERE id = $1`; `id` is the primary key.
unfoldable pub update_row : ℕ → (Novel → Novel) → List Novel → List Novel
update_row i f novels = elim (first_match (has_id i) novels) [
  | none ↦ novels
  | some novel ↦ put_first (has_id i) (f novel) novels
]

abbrev pub write_novel : ℕ → (Novel → Novel) → Catalog (Unit {0})
write_novel i f = modify (λ s. record s { novels = update_row i f s.novels })

abbrev pub is_entry : ℕ → ℕ → LibraryEntry → Bool
is_entry user novel e = e.user_id == user && e.novel_id == novel

abbrev pub insert_entry : LibraryEntry → List LibraryEntry → List LibraryEntry
insert_entry e entries = elim (first_match (is_entry e.user_id e.novel_id) entries) [
  | none ↦ entries ++ (e ∷ [])
  | some old ↦ entries
]

abbrev pub upsert_entry : LibraryEntry → List LibraryEntry → List LibraryEntry
upsert_entry e entries = elim (first_match (is_entry e.user_id e.novel_id) entries) [
  | none ↦ entries ++ (e ∷ [])
  | some old ↦ put_first (is_entry e.user_id e.novel_id) e entries
]

-- Statement `add_to_library`.
unfoldable pub insert_library_entry : ℕ → ℕ → Catalog (Unit {0})
unfolding ◌>>=◌
insert_library_entry i user = modify (λ s. record s {
  entries = insert_entry (record { user_id = user; novel_id = i; shelf = none }) s.entries;
})

-- Statement `remove_from_library`.
unfoldable pub delete_library_entry : ℕ → ℕ → Catalog (Unit {0})
unfolding ◌>>=◌
delete_library_entry i user =
    modify (λ s. record s { entries = select (λ e. not (is_entry user i e)) s.entries })

unfoldable pub set_shelf : ℕ → ℕ → Option String → Catalog (Unit {0})
unfolding ◌>>=◌
set_shelf i user shelf = modify (λ s. record s {
  entries = upsert_entry (record { user_id = user; novel_id = i; shelf = shelf }) s.entries;
})

abbrev pub with_visibility : Visibility → ℕ → Novel → Novel
with_visibility global_novel steward novel = record novel {
  visibility = global_novel;
  owner_id = some steward;
}
with_visibility v steward novel = record novel { visibility = v }

-- Statement `set_visibility`; the steward counts for the global library only.
unfoldable pub write_visibility : ℕ → Visibility → ℕ → Catalog (Unit {0})
unfolding ◌>>=◌ update_row
write_visibility i v steward = write_novel i (with_visibility v steward)

-- An entry of `fields`, a dictionary: a name stands in it once.
pub data Field : Type 0 where
  shelf contribution_policy title : Option String → Field
  status_tags : Option (List String) → Field
  codex_enabled : Option Bool → Field
  text_column : TextColumn → Option String → Field
  unknown : Field

abbrev pub is_unknown : Field → Bool
is_unknown unknown = true
is_unknown (shelf t) = true
is_unknown _ = false

abbrev pub is_null : Field → Bool
is_null (title none) = true
is_null _ = false

abbrev pub same_column : TextColumn → TextColumn → Bool
same_column author author = true
same_column description description = true
same_column cover_url cover_url = true
same_column _ _ = false

-- One assignment of the UPDATE.
abbrev pub assign : Field → Novel → Novel
assign (contribution_policy t) novel = record novel { contribution_policy = t }
assign (title (some t)) novel = record novel { title = t }
assign (status_tags ts) novel = record novel { status_tags = ts }
assign (codex_enabled b) novel = record novel { codex_enabled = b }
assign (text_column c t) novel = record novel {
  text_of = λ d. if same_column d c then t else novel.text_of d;
}
assign _ novel = novel

unfoldable pub assign_all : List Field → Novel → Novel
assign_all [] novel = novel
assign_all (f ∷ fs) novel = assign_all fs (assign f novel)

unfoldable pub any : (Field → Bool) → List Field → Bool
any p [] = false
any p (f ∷ fs) = p f || any p fs

unfoldable pub update_metadata : ℕ → List Field → Catalog (Unit {0})
unfolding ◌>>=◌ any update_row assign_all
update_metadata i fields = do
  raise_if (any is_unknown fields) value_error
  raise_if (any is_null fields) null_value
  write_novel i (assign_all fields)
