-- ===== src/Reading/Openings.antt =====
-- Sequences of calls of readers, and the chapters that they open.
pub mod Rows
pub mod Runs
use reading_wiki.Prelude.{
  ℕ, ◌≡◌, refl, sym, ap, ◌∙◌, String, Bool, true, false, not, ◌&&◌, Option, none, some, List, [],
  ◌∷◌, ◌++◌, ◌==◌, max, arith, if◌then◌else◌, is_some, get_or, first_match, put_first,
  first_match_holds, first_match-put, first_match-put_ne, first_match-append, Bool-cases,
  Option-cases, inl, inr, ◌⊎◌,
}
use reading_wiki.Errors.{Result, Error, ok, err}
use reading_wiki.Identity.Principal.{Principal}
use reading_wiki.Catalog.Novels.{Novel}
use reading_wiki.Reading.Tables.{
  Chapter, ReadingDb, ProgressRow, is_chapter, is_progress, upsert_progress, fresh_row, read_in,
  ceiling_of, raised, greatest,
}
use reading_wiki.Reading.Progress.{
  Float, place, set_progress, add_bookmark, delete_bookmark, open_chapter,
}

pub data Call : Type 0 where
  open_one : ℕ → Float → Option Principal → Call
  move : ℕ → Principal → Float → Float → Call
  mark : ℕ → Principal → Float → Option String → Call
  unmark : ℕ → Principal → ℕ → Call

abbrev pub Readable : Type 0
Readable = ℕ → Option Principal → Result Novel

module _ (start finish : ℕ) where
  -- The state after the call, whether it returned or raised, where the catalog answers `readable`.
  unfoldable pub call : Readable × Call → ReadingDb → ReadingDb
  call (readable, open_one i chapter p) s = (open_chapter readable start i chapter p s).1
  call (readable, move i p chapter scroll) s =
      (set_progress readable start finish i p chapter scroll s).1
  call (readable, mark i p chapter text) s = (add_bookmark readable i p chapter text s).1
  call (readable, unmark i p k) s = (delete_bookmark readable i p k s).1

  unfoldable pub call_all : List (Readable × Call) → ReadingDb → ReadingDb
  unfolding call
  call_all [] s = s
  call_all (c ∷ calls) s = call_all calls (call c s)

abbrev pub is_ok : Result Novel → Bool
is_ok (ok a) = true
is_ok (err e) = false

abbrev pub is_user : ℕ → Option Principal → Bool
is_user user none = false
is_user user (some p) = p.user_id == user

abbrev pub opens : Bool → ℕ → List ℕ
opens good number = if good then number ∷ [] else []

module _ (i user : ℕ) (chapters : List Chapter) where
  -- The chapter of the novel that the call opens for the user.
  unfoldable pub opened : Readable × Call → List ℕ
  opened (readable, open_one j chapter p) = elim (place chapter) [
    | none ↦ []
    | some number ↦
        opens
          (is_ok (readable j p)
            && (is_some (first_match (is_chapter j number) chapters) && (j == i && is_user user p)))
          number
  ]
  opened (readable, move j p chapter scroll) = []
  opened (readable, mark j p chapter text) = []
  opened (readable, unmark j p k) = []

  unfoldable pub all_opened : List (Readable × Call) → List ℕ
  unfolding opened
  all_opened [] = []
  all_opened (c ∷ calls) = opened c ++ all_opened calls
