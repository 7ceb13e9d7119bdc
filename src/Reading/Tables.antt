-- ===== src/Reading/Tables.antt =====
-- The tables of reading and the statements of reading/adapters/outbound/postgres.py on progress and
-- bookmarks. Chapter numbers are only compared, so a number stands for its place in their order.
use reading_wiki.Prelude.{
  ℕ, suc, String, Bool, not, ◌&&◌, Option, none, some, List, [], ◌∷◌, ◌++◌, ◌==◌, min, max, length,
  first_match, put_first, select, is_some, get_or,
}
use mathlib.Core.List.{map}
use reading_wiki.Errors.{Exec, pure, gets, modify, ◌>>=◌, ◌>>◌}

pub record Chapter : Type 0 where
  pub novel_id : ℕ
  pub number : ℕ
  pub content : Option String
  pub source_id : Option ℕ
  pub original_text : Option String
  pub is_translated : Bool
  pub content_version : Option ℕ

-- `scroll_pct` is a place in the order of numbers too.
pub record ProgressRow : Type 0 where
  pub user_id : ℕ
  pub novel_id : ℕ
  pub last_chapter : Option ℕ
  pub max_chapter_read : Option ℕ
  pub scroll_pct : Option ℕ

pub record Bookmark : Type 0 where
  pub id : ℕ
  pub user_id : ℕ
  pub novel_id : ℕ
  pub chapter : ℕ
  pub note : Option String

pub data Origin : Type 0 where
  manual_edit self_translated : Origin

pub record Overlay : Type 0 where
  pub user_id : ℕ
  pub novel_id : ℕ
  pub chapter : ℕ
  pub content : String
  pub base_version : ℕ
  pub origin : Origin
  pub conflict : Bool

pub data ContributionStatus : Type 0 where
  pending accepted rejected auto_merged : ContributionStatus

pub record Contribution : Type 0 where
  pub id : ℕ
  pub novel_id : ℕ
  pub from_user_id : ℕ
  pub chapter : ℕ
  pub content : String
  pub base_version : ℕ
  pub status : ContributionStatus
  pub reviewed_by : Option ℕ

-- `next_bookmark` and `next_contribution` are the sequences of ids.
pub record ReadingDb : Type 0 where
  pub chapters : List Chapter
  pub progress : List ProgressRow
  pub bookmarks : List Bookmark
  pub overlays : List Overlay
  pub contributions : List Contribution
  pub next_bookmark : ℕ
  pub next_contribution : ℕ

abbrev pub Reading : Type 0 → Type 0
Reading A = Exec ReadingDb A

-- ── chapters ──

abbrev pub is_chapter : ℕ → ℕ → Chapter → Bool
is_chapter i number c = c.novel_id == i && c.number == number

unfoldable pub chapter_exists : ℕ → ℕ → Reading Bool
unfolding ◌>>=◌
chapter_exists i number = gets (λ s. is_some (first_match (is_chapter i number) s.chapters))

abbrev pub of_novel : ℕ → Chapter → Bool
of_novel i c = c.novel_id == i

abbrev pub number_of : Chapter → ℕ
number_of c = c.number

-- `MIN(number)` and `MAX(number)`, NULL where there are no rows.
unfoldable pub least : List ℕ → Option ℕ
least [] = none
least (n ∷ ns) = let rest = least ns in some (min n (get_or rest n))

unfoldable pub greatest : List ℕ → Option ℕ
greatest [] = none
greatest (n ∷ ns) = let rest = greatest ns in some (max n (get_or rest n))

abbrev pub numbers : ℕ → ReadingDb → List ℕ
numbers i s = map number_of (select (of_novel i) s.chapters)

unfoldable pub chapter_span : ℕ → Reading (ℕ × (Option ℕ × Option ℕ))
unfolding ◌>>=◌ least greatest
chapter_span i = gets (λ s. (length (numbers i s), (least (numbers i s), greatest (numbers i s))))

-- ── progress ──

abbrev pub is_progress : ℕ → ℕ → ProgressRow → Bool
is_progress i user r = r.user_id == user && r.novel_id == i

-- `INSERT … ON CONFLICT (user_id, novel_id) DO UPDATE`
unfoldable pub upsert_progress :
    ℕ → ℕ → ProgressRow → (ProgressRow → ProgressRow) → List ProgressRow → List ProgressRow
upsert_progress i user fresh change rows = elim (first_match (is_progress i user) rows) [
  | none ↦ rows ++ (fresh ∷ [])
  | some old ↦ put_first (is_progress i user) (change old) rows
]

abbrev pub fresh_row : ℕ → ℕ → ℕ → Option ℕ → ℕ → ProgressRow
fresh_row i user chapter read scroll = record {
  user_id = user;
  novel_id = i;
  last_chapter = some chapter;
  max_chapter_read = read;
  scroll_pct = some scroll;
}

-- Statement `set_progress`.
unfoldable pub write_progress : ℕ → ℕ → ℕ → ℕ → Reading (Unit {0})
unfolding ◌>>=◌ upsert_progress
write_progress i user chapter scroll = modify (λ s. record s {
  progress =
      upsert_progress i user (fresh_row i user chapter none scroll)
        (λ old. record old { last_chapter = some chapter; scroll_pct = some scroll }) s.progress;
})

-- `GREATEST(COALESCE(max_chapter_read, number), number)`
abbrev pub raised : Option ℕ → ℕ → ℕ
raised read number = max (get_or read number) number

-- The upsert of `get_chapter`; `start` is the place of 0.
unfoldable pub record_opening : ℕ → ℕ → ℕ → ℕ → Reading (Unit {0})
unfolding ◌>>=◌ upsert_progress
record_opening start i user number = modify (λ s. record s {
  progress =
      upsert_progress i user (fresh_row i user number (some number) start)
        (λ old. record old {
          last_chapter = some (get_or old.last_chapter number);
          max_chapter_read = some (raised old.max_chapter_read number);
          scroll_pct = some (get_or old.scroll_pct start);
        })
        s.progress;
})

abbrev pub read_in : Option ProgressRow → Option ℕ
read_in none = none
read_in (some r) = r.max_chapter_read

abbrev pub ceiling_of : ℕ → ℕ → ReadingDb → Option ℕ
ceiling_of i user s = read_in (first_match (is_progress i user) s.progress)

unfoldable pub trusted_ceiling : ℕ → ℕ → Reading (Option ℕ)
unfolding ◌>>=◌
trusted_ceiling i user = gets (ceiling_of i user)

-- ── bookmarks ──

unfoldable pub insert_bookmark : ℕ → ℕ → ℕ → Option String → Reading ℕ
unfolding ◌>>=◌
insert_bookmark i user chapter note = do
  next ← gets (λ s. s.next_bookmark)
  modify (λ s. record s {
    bookmarks =
        s.bookmarks
        ++ (record { id = next; user_id = user; novel_id = i; chapter = chapter; note = note }
            ∷ []);
    next_bookmark = suc next;
  })
  pure next

abbrev pub is_bookmark : ℕ → ℕ → ℕ → Bookmark → Bool
is_bookmark i user k b = b.id == k && (b.novel_id == i && b.user_id == user)

-- Statement `delete_bookmark`.
unfoldable pub erase_bookmark : ℕ → ℕ → ℕ → Reading (Unit {0})
unfolding ◌>>=◌
erase_bookmark i user k =
    modify (λ s. record s { bookmarks = select (λ b. not (is_bookmark i user k b)) s.bookmarks })
