-- ===== src/Reading/Anchors.antt =====
-- No overlay falls behind its chapter unnoticed.
use reading_wiki.Prelude.{
  ℕ, suc, ◌≡◌, refl, sym, ap, ◌∙◌, subst, String, Bool, true, false, ◌&&◌, ◌||◌, Option, none, some,
  List, [], ◌∷◌, ◌==◌, leb, arith, first_match, put_first, map_where, first_match_holds,
  first_match-put, first_match-put_ne, All, All-map_where, All-put, All-append, All-weaken,
  Bool-cases, Option-cases, inl, inr, ==_iff,
}
use reading_wiki.Reading.Tables.{Chapter, Overlay, is_chapter}
use reading_wiki.Reading.Overlays.{
  version_of, is_overlay, kept_user, left_behind, in_conflict, anchored, anchor_kept, bumped,
  with_content, upsert_overlay,
}

-- The version of the chapter of an overlay; 0 where there is no such chapter.
abbrev pub version_in : Option Chapter → ℕ
version_in none = 0
version_in (some c) = version_of c

abbrev pub current : List Chapter → Overlay → ℕ
current chapters o = version_in (first_match (is_chapter o.novel_id o.chapter) chapters)

-- The overlay is marked, or is based on the current text.
abbrev pub IsAnchored : List Chapter → Overlay → Type 0
IsAnchored chapters o = (o.conflict || leb (current chapters o) o.base_version) ≡ true

abbrev pub AllAnchored : List Chapter → List Overlay → Type 0
AllAnchored chapters overlays = All (IsAnchored chapters) overlays

module _ (chapters : List Chapter) (i number : ℕ) where
  -- An overlay of the chapter, with the version that the chapter has now.
  pub of_chapter :
      (o : Overlay) (version : ℕ)
      → (o.novel_id == i && o.chapter == number) ≡ true
      → version_in (first_match (is_chapter i number) chapters) ≡ version
      → current chapters o ≡ version
  of_chapter o version here now =
      subst (λ j. version_in (first_match (is_chapter j o.chapter) chapters) ≡ version)
        (sym ((==_iff o.novel_id i).0 (ground (arith, here))))
        (subst (λ n. version_in (first_match (is_chapter i n) chapters) ≡ version)
          (sym ((==_iff o.chapter number).0 (ground (arith, here)))) now)

  pub upsert-AllAnchored :
      (o : Overlay) (overlays : List Overlay)
      → AllAnchored chapters overlays
      → IsAnchored chapters o
      → AllAnchored chapters (upsert_overlay o overlays)
  upsert-AllAnchored o overlays all h =
      elim (Option-cases (first_match (is_overlay o.novel_id o.chapter o.user_id) overlays)) [
        | inl e ↦
            rw (e, upsert_overlay) (All-append (IsAnchored chapters) overlays (o ∷ []) all (h, tt))
        | inr (old, e) ↦
            rw (e, upsert_overlay)
              (All-put (IsAnchored chapters) (is_overlay o.novel_id o.chapter o.user_id) o overlays
                all h)
      ]

  pub reanchor-AllAnchored :
      (user version : ℕ) (overlays : List Overlay)
      → version_in (first_match (is_chapter i number) chapters) ≡ version
      → AllAnchored chapters overlays
      → AllAnchored chapters (map_where (is_overlay i number user) (anchored version) overlays)
  reanchor-AllAnchored user version overlays now all =
      All-map_where (IsAnchored chapters) (is_overlay i number user) (anchored version) overlays
        (λ o own h. ground (arith, of_chapter o version (ground (arith, own)) now)) all

-- ── a new version ──

module _ (P Q : Overlay → Type 0) where
  pub All-map_where_to :
      (p : Overlay → Bool) (f : Overlay → Overlay) (os : List Overlay)
      → ((o : Overlay) → P o → p o ≡ true → Q (f o))
      → ((o : Overlay) → P o → p o ≡ false → Q o)
      → All P os
      → All Q (map_where p f os)
  unfolding map_where
  All-map_where_to p f [] on off all = tt
  All-map_where_to p f (o ∷ os) on off all = elim (Bool-cases (p o)) [
    | inl e ↦ rw e (on o all.0 e, All-map_where_to p f os on off all.1)
    | inr e ↦ rw e (off o all.0 e, All-map_where_to p f os on off all.1)
  ]

module _ (chapters : List Chapter) (i number v : ℕ) (c : Chapter) (content : String)
    (there : first_match (is_chapter i number) chapters ≡ some c)
    (has : c.content_version ≡ some v) where
  abbrev after : List Chapter
  after = put_first (is_chapter i number) (with_content content c) chapters

  -- Marked, or based on the current text, or of the one whose overlay is kept.
  abbrev IsKept : Option ℕ → Overlay → Type 0
  IsKept keep o =
      (o.conflict
        || (leb (current after o) o.base_version
            || (kept_user keep o.user_id && (o.novel_id == i && o.chapter == number))))
      ≡ true

  now_after : version_in (first_match (is_chapter i number) after) ≡ suc v
  now_after =
      ap version_in (
        first_match-put (is_chapter i number) (with_content content c) chapters
          (first_match_holds (is_chapter i number) chapters {x = c} there))
      ∙ rw (there, has) (ground arith)

  elsewhere :
      (o : Overlay)
      → (o.novel_id == i && o.chapter == number) ≡ false
      → current after o ≡ current chapters o
  elsewhere o away = ap version_in (
      first_match-put_ne (is_chapter i number) (is_chapter o.novel_id o.chapter)
        (with_content content c) chapters (λ x here. ground (arith, here, away))
        (ground (arith, first_match_holds (is_chapter i number) chapters {x = c} there, away)))

  stays :
      (keep : Option ℕ) (o : Overlay)
      → IsAnchored chapters o
      → left_behind i number (suc v) keep o ≡ false
      → IsKept keep o
  stays keep o h e = elim (Bool-cases (o.novel_id == i && o.chapter == number)) [
    | inr away ↦ ground (arith, h, elsewhere o away)
    | inl here ↦ ground (arith, e, here, of_chapter after i number o (suc v) here now_after)
  ]

  marked-IsKept :
      (keep : Option ℕ) (overlays : List Overlay)
      → AllAnchored chapters overlays
      → All (IsKept keep) (map_where (left_behind i number (suc v) keep) in_conflict overlays)
  marked-IsKept keep overlays all =
      All-map_where_to (IsAnchored chapters) (IsKept keep) (left_behind i number (suc v) keep)
        in_conflict overlays (λ o h e. refl) (λ o h e. stays keep o h e) all

  pub new_version-AllAnchored :
      (keep : Option ℕ) (overlays : List Overlay)
      → AllAnchored chapters overlays
      → AllAnchored after (
          anchor_kept i number
            (suc v)
            keep
            (map_where (left_behind i number (suc v) keep) in_conflict overlays))
  new_version-AllAnchored none overlays all =
      All-weaken (IsKept none) (IsAnchored after) _ (λ o h. ground (arith, h))
        (marked-IsKept none overlays all)
  new_version-AllAnchored (some user) overlays all =
      All-map_where_to (IsKept (some user)) (IsAnchored after) (is_overlay i number user)
        (anchored (suc v)) _
        (λ o h own.
          ground (arith, of_chapter after i number o (suc v) (ground (arith, own)) now_after))
        (λ o h other. ground (arith, h, other)) (marked-IsKept (some user) overlays all)

  pub written-AllAnchored :
      (keep : Option ℕ) (overlays : List Overlay)
      → AllAnchored chapters overlays
      → AllAnchored
          (put_first
            (is_chapter i number)
            (record c {
              content = some content;
              is_translated = true;
              content_version = some (suc v);
            })
            chapters)
          (anchor_kept i number
            (suc v)
            keep
            (map_where (left_behind i number (suc v) keep) in_conflict overlays))
  written-AllAnchored keep overlays all =
      subst
        (λ w.
          AllAnchored
            (put_first (is_chapter i number)
              (record c { content = some content; is_translated = true; content_version = w })
              chapters)
            (anchor_kept i number (suc v) keep
              (map_where (left_behind i number (suc v) keep) in_conflict overlays)))
        (ap bumped has) (new_version-AllAnchored keep overlays all)
