-- ===== src/Reading/Openings/Runs.antt =====
-- The trusted ceiling of a reader is the last of the chapters that it opened.
use reading_wiki.Prelude.{
  ℕ, ◌≡◌, refl, sym, ap, ap₂, ◌∙◌, String, ◌&&◌, Option, none, some, List, [], ◌∷◌, ◌==◌, leb,
  arith, first_match, Bool-cases, Option-cases, inl, inr,
}
use reading_wiki.Errors.{Result-cases}
use reading_wiki.Identity.Principal.{Principal}
use reading_wiki.Reading.Tables.{
  ReadingDb, ProgressRow, is_chapter, is_progress, record_opening, write_progress, read_in,
  ceiling_of, raised, greatest,
}
use reading_wiki.Reading.Progress.{
  Float, place, set_progress, add_bookmark, delete_bookmark, open_chapter, record_for,
}
use reading_wiki.Reading.Openings.{
  Call, open_one, move, mark, unmark, Readable, call, call_all, opened, all_opened, is_user, opens,
}
use reading_wiki.Reading.Openings.Rows.{
  raise_all, raise_all-greatest, raise_all-append, upsert_apart, upsert_same,
}

kept_read :
    (fresh : ProgressRow) (change : ProgressRow → ProgressRow) (row : Option ProgressRow)
    → fresh.max_chapter_read ≡ none
    → ((old : ProgressRow) → (change old).max_chapter_read ≡ old.max_chapter_read)
    → read_in (elim row [ none ↦ some fresh | some old ↦ some (change old) ]) ≡ read_in row
kept_read fresh change none e h = e
kept_read fresh change (some old) e h = h old

raised_read :
    (fresh : ProgressRow) (change : ProgressRow → ProgressRow) (number : ℕ)
    (row : Option ProgressRow)
    → fresh.max_chapter_read ≡ some number
    → ((old : ProgressRow)
        → (change old).max_chapter_read ≡ some (raised old.max_chapter_read number))
    → read_in (elim row [ none ↦ some fresh | some old ↦ some (change old) ])
      ≡ some (raised (read_in row) number)
raised_read fresh change number none e h = e ∙ ground arith
raised_read fresh change number (some old) e h = h old

module _ (start finish i user : ℕ) (readable : Readable) where
  abbrev Raised : Call → ReadingDb → Type 0
  Raised c s =
      ((call start finish (readable, c) s).chapters ≡ s.chapters)
      × (ceiling_of i user (call start finish (readable, c) s)
          ≡ raise_all (opened i user s.chapters (readable, c)) (ceiling_of i user s))

  unmark-Raised : (j : ℕ) (p : Principal) (k : ℕ) (s : ReadingDb) → Raised (unmark j p k) s
  unfolding call opened delete_bookmark
  unmark-Raised j p k s = elim (Result-cases (readable j (some p))) [
    | inl (x, r) ↦ rw r (refl, refl)
    | inr (novel, r) ↦ rw r (refl, refl)
  ]

  mark-Raised :
      (j : ℕ) (p : Principal) (chapter : Float) (text : Option String) (s : ReadingDb)
      → Raised (mark j p chapter text) s
  unfolding call opened add_bookmark
  mark-Raised j p chapter text s = elim (Result-cases (readable j (some p))) [
    | inl (x, r) ↦ rw r (refl, refl)
    | inr (novel, r) ↦ rw r (elim (Option-cases (place chapter)) [
      | inl e ↦ rw e (refl, refl)
      | inr (number, e) ↦ rw e (elim (Option-cases (first_match (is_chapter j number) s.chapters)) [
        | inl f ↦ rw f (refl, refl)
        | inr (c, f) ↦ rw f (refl, refl)
      ])
    ])
  ]

  -- The upsert of `set_progress`.
  write-kept :
      (j : ℕ) (p : Principal) (number pct : ℕ) (s : ReadingDb)
      → ceiling_of i user (write_progress j p.user_id number pct s).1 ≡ ceiling_of i user s
  unfolding write_progress
  write-kept j p number pct s = elim (Bool-cases (j == i && p.user_id == user)) [
    | inr apart ↦
        ap read_in
          (upsert_apart j p.user_id _ _ s.progress (ground arith) (λ old h. h) i user apart)
    | inl own ↦
        ap read_in (upsert_same j p.user_id _ _ s.progress (ground arith) (λ old h. h) i user own)
        ∙ kept_read _ _ (first_match (is_progress i user) s.progress) refl (λ old. refl)
  ]

  move-Raised :
      (j : ℕ) (p : Principal) (chapter scroll : Float) (s : ReadingDb)
      → Raised (move j p chapter scroll) s
  unfolding call opened set_progress
  move-Raised j p chapter scroll s = elim (Result-cases (readable j (some p))) [
    | inl (x, r) ↦ rw r (refl, refl)
    | inr (novel, r) ↦ rw r (elim (Option-cases (place chapter)) [
      | inl e ↦ rw e (refl, refl)
      | inr (number, e) ↦ rw e (elim (Option-cases (place scroll)) [
        | inl g ↦ rw g (refl, refl)
        | inr (pct, g) ↦ rw g (elim (Bool-cases (leb start pct && leb pct finish)) [
          | inr h ↦ rw h (refl, refl)
          | inl h ↦ rw h (elim (Option-cases (first_match (is_chapter j number) s.chapters)) [
            | inl f ↦ rw f (refl, refl)
            | inr (c, f) ↦ rw f (refl, write-kept j p number pct s)
          ])
        ])
      ])
    ])
  ]

  -- The upsert of `get_chapter`.
  record-raised :
      (j : ℕ) (p : Principal) (number : ℕ) (s : ReadingDb)
      → ceiling_of i user (record_opening start j p.user_id number s).1
        ≡ raise_all (opens (j == i && p.user_id == user) number) (ceiling_of i user s)
  unfolding record_opening
  record-raised j p number s = elim (Bool-cases (j == i && p.user_id == user)) [
    | inr apart ↦ rw apart (
        ap read_in
          (upsert_apart j p.user_id _ _ s.progress (ground arith) (λ old h. h) i user apart))
    | inl own ↦ rw own (
        ap read_in (upsert_same j p.user_id _ _ s.progress (ground arith) (λ old h. h) i user own)
        ∙ raised_read _ _ number (first_match (is_progress i user) s.progress) refl (λ old. refl))
  ]

  abbrev Recorded : ℕ → Option Principal → ℕ → ReadingDb → Type 0
  Recorded j p number s =
      ((record_for readable start j p number s).1.chapters ≡ s.chapters)
      × (ceiling_of i user (record_for readable start j p number s).1
          ≡ raise_all (opens (j == i && is_user user p) number) (ceiling_of i user s))

  recorded : (j : ℕ) (p : Option Principal) (number : ℕ) (s : ReadingDb) → Recorded j p number s
  unfolding record_opening
  recorded j none number s = (refl, ground arith)
  recorded j (some p) number s = (refl, record-raised j p number s)

  open-Raised :
      (j : ℕ) (chapter : Float) (p : Option Principal) (s : ReadingDb)
      → Raised (open_one j chapter p) s
  unfolding call opened open_chapter
  open-Raised j chapter p s = elim (Result-cases (readable j p)) [
    | inl (x, r) ↦ elim (Option-cases (place chapter)) [
      | inl e ↦ rw (opened, e, r) (refl, refl)
      | inr (number, e) ↦ rw (opened, e, r) (refl, refl)
    ]
    | inr (novel, r) ↦ elim (Option-cases (place chapter)) [
      | inl e ↦ rw (opened, e, r) (refl, refl)
      | inr (number, e) ↦ elim (Option-cases (first_match (is_chapter j number) s.chapters)) [
        | inl f ↦ rw (opened, e, r, f) (refl, refl)
        | inr (c, f) ↦ rw (opened, e, r, f) (recorded j p number s)
      ]
    ]
  ]

  call-Raised : (c : Call) (s : ReadingDb) → Raised c s
  call-Raised (open_one j chapter p) s = open-Raised j chapter p s
  call-Raised (move j p chapter scroll) s = move-Raised j p chapter scroll s
  call-Raised (mark j p chapter text) s = mark-Raised j p chapter text s
  call-Raised (unmark j p k) s = unmark-Raised j p k s

module _ (start finish i user : ℕ) where
  runs-raised :
      (calls : List (Readable × Call)) (s : ReadingDb)
      → ceiling_of i user (call_all start finish calls s)
        ≡ raise_all (all_opened i user s.chapters calls) (ceiling_of i user s)
  unfolding call_all all_opened
  runs-raised [] s = refl
  runs-raised ((readable, c) ∷ calls) s =
      let (same, now) = call-Raised start finish i user readable c s in
      runs-raised calls (call start finish (readable, c) s)
      ∙ (ap₂ (λ cs t. raise_all (all_opened i user cs calls) t) same now
          ∙ sym (raise_all-append (opened i user s.chapters (readable, c)) _ (ceiling_of i user s)))

  pub runs-chapters :
      (calls : List (Readable × Call)) (s : ReadingDb)
      → (call_all start finish calls s).chapters ≡ s.chapters
  unfolding call_all
  runs-chapters [] s = refl
  runs-chapters ((readable, c) ∷ calls) s =
      runs-chapters calls _ ∙ (call-Raised start finish i user readable c s).0

  -- Of a reader who opened no chapter of a novel before, the trusted ceiling is the last of the
  -- chapters that it opened since: neither the position that it reports, nor its bookmarks, nor the
  -- other readers move it.
  pub call_all-greatest :
      (calls : List (Readable × Call)) (s : ReadingDb)
      → ceiling_of i user s ≡ none
      → ceiling_of i user (call_all start finish calls s)
        ≡ greatest (all_opened i user s.chapters calls)
  call_all-greatest calls s fresh =
      runs-raised calls s
      ∙ (raise_all-greatest (all_opened i user s.chapters calls) (ceiling_of i user s)
          ∙ rw fresh refl)
