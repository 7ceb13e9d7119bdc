-- ===== src/Reading/Anchored.antt =====
-- After any edits, no overlay is behind its chapter without a mark.
use reading_wiki.Prelude.{
  lower, ℕ, suc, ◌≡◌, refl, String, not, ◌&&◌, Option, none, some, List, [], ◌∷◌, leb, ltb, arith,
  first_match, put_first, map_where, is_some, truthy, str_eq, get_or, opt_eq, All-select,
  Bool-cases, Option-cases, inl, inr,
}
use reading_wiki.Errors.{not_found, Result, Result-cases, atomically, ok, err}
use reading_wiki.Identity.Principal.{Principal}
use reading_wiki.Catalog.Novels.{Novel}
use reading_wiki.Reading.Tables.{Chapter, ReadingDb, is_chapter}
use reading_wiki.Reading.Overlays.{
  is_overlay, contribution_to, is_pending, pending_to, version_of, update_base_content,
  with_content, anchor_kept, left_behind, in_conflict,
}
use reading_wiki.Reading.Edits.{
  text_of, base_of, content_of, edit_base_content, save_overlay, delete_overlay, resolve_overlay,
  resolve_as, is_choice, contribute, accept_contribution, reject_contribution,
}
use reading_wiki.Reading.Sequences.{
  Edit, edit_base, save, drop, offer, resolve, accept, reject, Caller, apply, apply_all,
}
use reading_wiki.Reading.Anchors.{
  written-AllAnchored, IsAnchored, AllAnchored, version_in, upsert-AllAnchored,
  reanchor-AllAnchored, new_version-AllAnchored,
}

abbrev pub IsSound : ReadingDb → Type 0
IsSound s = AllAnchored s.chapters s.overlays

-- `update_base_content` of a chapter that is there: it raises where the version is NULL.
module _ (i number : ℕ) (content : String) (keep : Option ℕ) (s : ReadingDb) (c : Chapter)
    (there : first_match (is_chapter i number) s.chapters ≡ some c) where
  base-none :
      c.content_version ≡ none → (update_base_content i number content keep s).0 ≡ err not_found
  unfolding update_base_content
  base-none has = rw there (rw has refl)

  base-some :
      (v : ℕ)
      → c.content_version ≡ some v
      → update_base_content i number content keep s ≡ (
        ok (suc v),
        record s {
          chapters = put_first (is_chapter i number) (with_content content c) s.chapters;
          overlays =
              anchor_kept i number
                (suc v)
                keep
                (map_where (left_behind i number (suc v) keep) in_conflict s.overlays);
        },
      )
  unfolding update_base_content
  base-some v has = rw there (rw has refl)

module _ (readable editable : ℕ → Option Principal → Result Novel) (i : ℕ) (p : Principal)
    (s : ReadingDb) (h : IsSound s) where
  edit-IsSound :
      (number : ℕ) (content : Option String)
      → IsSound (edit_base_content readable editable i number content p s).1
  unfolding edit_base_content
  edit-IsSound number content = elim (Result-cases (editable i (some p))) [
    | inl (x, r) ↦ rw r h
    | inr (novel, r) ↦ rw r (elim (Bool-cases (truthy (text_of content))) [
      | inr t ↦ rw t h
      | inl t ↦ rw t (elim (Option-cases (first_match (is_chapter i number) s.chapters)) [
        | inl e ↦ rw e h
        | inr (c, e) ↦ rw e (elim (Option-cases c.content_version) [
          | inl n ↦ rw (base-none i number (text_of content) none s c e n) h
          | inr (v, n) ↦ rw (base-some i number (text_of content) none s c e v n) (
              new_version-AllAnchored s.chapters i number v c (text_of content) e n none s.overlays
                h)
        ])
      ])
    ])
  ]

  save-IsSound :
      (number : ℕ) (content : Option String)
      → IsSound (save_overlay readable editable i number content p s).1
  unfolding save_overlay
  save-IsSound number content = elim (Result-cases (readable i (some p))) [
    | inl (x, r) ↦ rw r h
    | inr (novel, r) ↦ rw r (elim (Bool-cases (truthy (text_of content))) [
      | inr t ↦ rw t h
      | inl t ↦ rw t (elim (Option-cases (first_match (is_chapter i number) s.chapters)) [
        | inl e ↦ rw e h
        | inr (c, e) ↦
            rw e (upsert-AllAnchored s.chapters i number _ s.overlays h (rw e (ground arith)))
      ])
    ])
  ]

  delete-IsSound : (number : ℕ) → IsSound (delete_overlay readable editable i number p s).1
  unfolding delete_overlay
  delete-IsSound number = elim (Result-cases (readable i (some p))) [
    | inl (x, r) ↦ rw r h
    | inr (novel, r) ↦ rw r (All-select (IsAnchored s.chapters) _ s.overlays h)
  ]

  reject-IsSound : (k : ℕ) → IsSound (reject_contribution readable editable i k p s).1
  unfolding reject_contribution
  reject-IsSound k = elim (Result-cases (editable i (some p))) [
    | inl (x, r) ↦ rw r h
    | inr (novel, r) ↦
        rw r (elim (Bool-cases (is_some (first_match (pending_to i k) s.contributions))) [
          | inl f ↦ rw f h
          | inr f ↦ rw f h
        ])
  ]

  resolve_as-IsSound :
      (choice : String) (number : ℕ) (content : Option String) (version : ℕ)
      → version_in (first_match (is_chapter i number) s.chapters) ≡ version
      → IsSound (atomically (resolve_as readable editable choice i number content p version) s).1
  unfolding resolve_as atomically
  resolve_as-IsSound choice number content version now = elim (Bool-cases (str_eq choice "base")) [
    | inl b ↦ rw b (All-select (IsAnchored s.chapters) _ s.overlays h)
    | inr b ↦ rw b (elim (Bool-cases (str_eq choice "mine")) [
      | inl m ↦ rw m (reanchor-AllAnchored s.chapters i number p.user_id version s.overlays now h)
      | inr m ↦ rw m (elim (Bool-cases (truthy (text_of content))) [
        | inr t ↦ rw t h
        | inl t ↦
            rw t (upsert-AllAnchored s.chapters i number _ s.overlays h (rw now (ground arith)))
      ])
    ])
  ]

  resolve-IsSound :
      (number : ℕ) (choice content : Option String)
      → IsSound (resolve_overlay readable editable i number choice content p s).1
  unfolding resolve_overlay atomically
  resolve-IsSound number choice content = elim (Result-cases (readable i (some p))) [
    | inl (x, r) ↦ rw r h
    | inr (novel, r) ↦
        rw r (elim (Bool-cases (is_choice readable editable (lower (get_or choice "")))) [
          | inr t ↦ rw t h
          | inl t ↦ rw t (elim (Option-cases (first_match (is_chapter i number) s.chapters)) [
            | inl e ↦ rw e h
            | inr (c, e) ↦ rw e (
                resolve_as-IsSound (lower (get_or choice "")) number content (version_of c)
                  (rw e refl))
          ])
        ])
  ]

  contribute-IsSound : (number : ℕ) → IsSound (contribute readable editable i number p s).1
  unfolding contribute
  contribute-IsSound number = elim (Result-cases (readable i (some p))) [
    | inl (x, r) ↦ rw r h
    | inr (novel, r) ↦
        rw r (elim (Option-cases (first_match (is_overlay i number p.user_id) s.overlays)) [
          | inl o ↦ rw o h
          | inr (o, own) ↦
              rw own (elim (Option-cases (first_match (is_chapter i number) s.chapters)) [
                | inl e ↦ rw e h
                | inr (c, e) ↦
                    rw e
                      (elim (Bool-cases (
                        opt_eq novel.contribution_policy "auto"
                        && leb (version_of c) o.base_version)) [
                          | inr a ↦ rw a h
                          | inl a ↦ rw a (elim (Option-cases c.content_version) [
                            | inl n ↦ rw (e, n) h
                            | inr (v, n) ↦
                                rw (e, n)
                                  (written-AllAnchored s.chapters i number v c o.content e n
                                    (some p.user_id) s.overlays h)
                          ])
                        ])
              ])
        ])
  ]

  accept-IsSound :
      (k : ℕ) (resolved : Option String)
      → IsSound (accept_contribution readable editable i k resolved p s).1
  unfolding accept_contribution
  accept-IsSound k resolved = elim (Result-cases (editable i (some p))) [
    | inl (x, r) ↦ rw r h
    | inr (novel, r) ↦
        rw r (elim (Option-cases (first_match (contribution_to i k) s.contributions)) [
          | inl f ↦ rw f h
          | inr (c, f) ↦ rw f (elim (Bool-cases (is_pending c.status)) [
            | inr u ↦ rw u h
            | inl u ↦ rw u (elim (Option-cases (first_match (is_chapter i c.chapter) s.chapters)) [
              | inl e ↦ rw e h
              | inr (ch, e) ↦
                  rw e
                    (elim (Bool-cases
                      (ltb (base_of c) (version_of ch) && not (truthy (text_of resolved)))) [
                        | inl b ↦ rw b h
                        | inr b ↦ rw b (elim (Option-cases ch.content_version) [
                          | inl n ↦ rw (e, n) h
                          | inr (v, n) ↦
                              rw (e, n)
                                (written-AllAnchored s.chapters i c.chapter v ch
                                  (content_of (text_of resolved) c) e n (some c.from_user_id)
                                  s.overlays h)
                        ])
                      ])
            ])
          ])
        ])
  ]

apply-IsSound : (e : Caller × Edit) (s : ReadingDb) → IsSound s → IsSound (apply e s)
unfolding apply
apply-IsSound (w, edit_base i number content) s h =
    edit-IsSound w.readable w.editable i w.principal s h number content
apply-IsSound (w, save i number content) s h =
    save-IsSound w.readable w.editable i w.principal s h number content
apply-IsSound (w, drop i number) s h = delete-IsSound w.readable w.editable i w.principal s h number
apply-IsSound (w, offer i number) s h =
    contribute-IsSound w.readable w.editable i w.principal s h number
apply-IsSound (w, resolve i number choice content) s h =
    resolve-IsSound w.readable w.editable i w.principal s h number choice content
apply-IsSound (w, accept i k content) s h =
    accept-IsSound w.readable w.editable i w.principal s h k content
apply-IsSound (w, reject i k) s h = reject-IsSound w.readable w.editable i w.principal s h k

-- Where every overlay is based on the current version of its chapter or marked as in conflict, the
-- same holds after any edits, whoever makes them: no text of a reader falls behind unnoticed.
pub apply_all-IsSound :
    (edits : List (Caller × Edit)) (s : ReadingDb) → IsSound s → IsSound (apply_all edits s)
unfolding apply_all
apply_all-IsSound [] s h = h
apply_all-IsSound (e ∷ edits) s h = apply_all-IsSound edits (apply e s) (apply-IsSound e s h)
