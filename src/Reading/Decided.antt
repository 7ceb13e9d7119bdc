-- ===== src/Reading/Decided.antt =====
-- A contribution is decided once.
use reading_wiki.Prelude.{
  lower, ℕ, ◌≡◌, refl, String, true, not, ◌&&◌, Option, some, List, [], ◌∷◌, leb, ltb, arith,
  first_match, is_some, truthy, str_eq, get_or, opt_eq, All, All-first_match, first_match_holds,
  Bool-cases, Option-cases, inl, inr,
}
use reading_wiki.Errors.{Result, Result-cases, atomically}
use reading_wiki.Identity.Principal.{Principal}
use reading_wiki.Catalog.Novels.{Novel}
use reading_wiki.Reading.Tables.{Contribution, ReadingDb, is_chapter}
use reading_wiki.Reading.Overlays.{
  is_overlay, is_contribution, contribution_to, is_pending, pending_to, version_of,
  update_base_content,
}
use reading_wiki.Reading.Overlays
use reading_wiki.Reading.Edits.{
  text_of, base_of, content_of, edit_base_content, save_overlay, delete_overlay, resolve_overlay,
  resolve_as, is_choice, contribute, accept_contribution, reject_contribution,
}
use reading_wiki.Reading.Sequences.{
  Edit, edit_base, save, drop, offer, resolve, accept, reject, Caller, apply, apply_all,
}
use reading_wiki.Reading.Contributions.{
  IsClosed, IsDecided, append-IsDecided, map_where-IsDecided, closed_row,
}

abbrev pub Kept : ℕ → Contribution → ReadingDb → Type 0
Kept k c s = IsDecided k c s.contributions s.next_contribution

module _ (k : ℕ) (c : Contribution) (readable editable : ℕ → Option Principal → Result Novel)
    (i : ℕ) (p : Principal) (s : ReadingDb) (h : Kept k c s) where
  edit-Kept :
      (number : ℕ) (content : Option String)
      → Kept k c (edit_base_content readable editable i number content p s).1
  unfolding edit_base_content update_base_content
  edit-Kept number content = elim (Result-cases (editable i (some p))) [
    | inl (x, r) ↦ rw r h
    | inr (novel, r) ↦ rw r (elim (Bool-cases (truthy (text_of content))) [
      | inr t ↦ rw t h
      | inl t ↦ rw t (elim (Option-cases (first_match (is_chapter i number) s.chapters)) [
        | inl e ↦ rw e h
        | inr (ch, e) ↦ rw e (elim (Option-cases ch.content_version) [
          | inl n ↦ rw (e, n) h
          | inr (v, n) ↦ rw (e, n) h
        ])
      ])
    ])
  ]

  save-Kept :
      (number : ℕ) (content : Option String)
      → Kept k c (save_overlay readable editable i number content p s).1
  unfolding save_overlay
  save-Kept number content = elim (Result-cases (readable i (some p))) [
    | inl (x, r) ↦ rw r h
    | inr (novel, r) ↦ rw r (elim (Bool-cases (truthy (text_of content))) [
      | inr t ↦ rw t h
      | inl t ↦ rw t (elim (Option-cases (first_match (is_chapter i number) s.chapters)) [
        | inl e ↦ rw e h
        | inr (ch, e) ↦ rw e h
      ])
    ])
  ]

  delete-Kept : (number : ℕ) → Kept k c (delete_overlay readable editable i number p s).1
  unfolding delete_overlay
  delete-Kept number = elim (Result-cases (readable i (some p))) [
    | inl (x, r) ↦ rw r h
    | inr (novel, r) ↦ rw r h
  ]

  reject-Kept : (m : ℕ) → Kept k c (reject_contribution readable editable i m p s).1
  unfolding reject_contribution
  reject-Kept m = elim (Result-cases (editable i (some p))) [
    | inl (x, r) ↦ rw r h
    | inr (novel, r) ↦
        rw r (elim (Bool-cases (is_some (first_match (pending_to i m) s.contributions))) [
          | inl f ↦ rw f (
              map_where-IsDecided k c (pending_to i m) (Overlays.reject p.user_id) s.contributions
                s.next_contribution (λ d e. refl) (λ d. refl)
                (ground (arith, closed_row k c s.contributions s.next_contribution h)) h)
          | inr f ↦ rw f h
        ])
  ]

  resolve_as-Kept :
      (choice : String) (number : ℕ) (content : Option String) (version : ℕ)
      → Kept k c (atomically (resolve_as readable editable choice i number content p version) s).1
  unfolding resolve_as atomically
  resolve_as-Kept choice number content version = elim (Bool-cases (str_eq choice "base")) [
    | inl b ↦ rw b h
    | inr b ↦ rw b (elim (Bool-cases (str_eq choice "mine")) [
      | inl m ↦ rw m h
      | inr m ↦
          rw m (elim (Bool-cases (truthy (text_of content))) [ inr t ↦ rw t h | inl t ↦ rw t h ])
    ])
  ]

  resolve-Kept :
      (number : ℕ) (choice content : Option String)
      → Kept k c (resolve_overlay readable editable i number choice content p s).1
  unfolding resolve_overlay atomically
  resolve-Kept number choice content = elim (Result-cases (readable i (some p))) [
    | inl (x, r) ↦ rw r h
    | inr (novel, r) ↦
        rw r (elim (Bool-cases (is_choice readable editable (lower (get_or choice "")))) [
          | inr t ↦ rw t h
          | inl t ↦ rw t (elim (Option-cases (first_match (is_chapter i number) s.chapters)) [
            | inl e ↦ rw e h
            | inr (ch, e) ↦
                rw e (resolve_as-Kept (lower (get_or choice "")) number content (version_of ch))
          ])
        ])
  ]

  contribute-Kept : (number : ℕ) → Kept k c (contribute readable editable i number p s).1
  unfolding contribute
  contribute-Kept number = elim (Result-cases (readable i (some p))) [
    | inl (x, r) ↦ rw r h
    | inr (novel, r) ↦
        rw r (elim (Option-cases (first_match (is_overlay i number p.user_id) s.overlays)) [
          | inl o ↦ rw o h
          | inr (o, own) ↦
              rw own (elim (Option-cases (first_match (is_chapter i number) s.chapters)) [
                | inl e ↦ rw e h
                | inr (ch, e) ↦
                    rw e
                      (elim (Bool-cases (
                        opt_eq novel.contribution_policy "auto"
                        && leb (version_of ch) o.base_version)) [
                          | inr a ↦
                              rw a
                                (append-IsDecided k c s.contributions s.next_contribution _ refl h)
                          | inl a ↦ rw a (elim (Option-cases ch.content_version) [
                            | inl n ↦ rw (e, n) h
                            | inr (v, n) ↦
                                rw (e, n)
                                  (append-IsDecided k c s.contributions s.next_contribution _ refl
                                    h)
                          ])
                        ])
              ])
        ])
  ]

  accept-Kept :
      (m : ℕ) (resolved : Option String)
      → Kept k c (accept_contribution readable editable i m resolved p s).1
  unfolding accept_contribution
  accept-Kept m resolved = elim (Result-cases (editable i (some p))) [
    | inl (x, r) ↦ rw r h
    | inr (novel, r) ↦
        rw r (elim (Option-cases (first_match (contribution_to i m) s.contributions)) [
          | inl f ↦ rw f h
          | inr (d, f) ↦ rw f (elim (Bool-cases (is_pending d.status)) [
            | inr u ↦ rw u h
            | inl u ↦ rw u (elim (Option-cases (first_match (is_chapter i d.chapter) s.chapters)) [
              | inl e ↦ rw e h
              | inr (ch, e) ↦
                  rw e
                    (elim (Bool-cases
                      (ltb (base_of d) (version_of ch) && not (truthy (text_of resolved)))) [
                        | inl b ↦ rw b h
                        | inr b ↦ rw b (elim (Option-cases ch.content_version) [
                          | inl n ↦ rw (e, n) h
                          | inr (v, n) ↦
                              rw (e, n)
                                (map_where-IsDecided k c (is_contribution m)
                                  (Overlays.accept (content_of (text_of resolved) d) p.user_id)
                                  s.contributions s.next_contribution (λ x y. refl) (λ x. refl)
                                  (ground (
                                    arith,
                                    u,
                                    closed_row k c s.contributions s.next_contribution h,
                                    first_match_holds (contribution_to i m) s.contributions {x = d}
                                        f,
                                    All-first_match (IsClosed k) (contribution_to i m)
                                        s.contributions h.1.0 f,
                                  ))
                                  h)
                        ])
                      ])
            ])
          ])
        ])
  ]

module _ (k : ℕ) (c : Contribution) where
  apply-Kept : (e : Caller × Edit) (s : ReadingDb) → Kept k c s → Kept k c (apply e s)
  unfolding apply
  apply-Kept (w, edit_base i number content) s h =
      edit-Kept k c w.readable w.editable i w.principal s h number content
  apply-Kept (w, save i number content) s h =
      save-Kept k c w.readable w.editable i w.principal s h number content
  apply-Kept (w, drop i number) s h = delete-Kept k c w.readable w.editable i w.principal s h number
  apply-Kept (w, offer i number) s h =
      contribute-Kept k c w.readable w.editable i w.principal s h number
  apply-Kept (w, resolve i number choice content) s h =
      resolve-Kept k c w.readable w.editable i w.principal s h number choice content
  apply-Kept (w, accept i m content) s h =
      accept-Kept k c w.readable w.editable i w.principal s h m content
  apply-Kept (w, reject i m) s h = reject-Kept k c w.readable w.editable i w.principal s h m

  edits-Kept :
      (edits : List (Caller × Edit)) (s : ReadingDb) → Kept k c s → Kept k c (apply_all edits s)
  unfolding apply_all
  edits-Kept [] s h = h
  edits-Kept (e ∷ edits) s h = edits-Kept edits (apply e s) (apply-Kept e s h)

  -- A contribution is decided once: where no contribution of its id is pending, its row, with the
  -- status, the text and the reviewer, is the same after any edits, whoever makes them.
  pub apply_all-decided :
      (edits : List (Caller × Edit)) (s : ReadingDb)
      → ltb k s.next_contribution ≡ true
      → All (IsClosed k) s.contributions
      → first_match (is_contribution k) s.contributions ≡ some c
      → first_match (is_contribution k) (apply_all edits s).contributions ≡ some c
  apply_all-decided edits s given closed row = (edits-Kept edits s (given, (closed, row))).1.1
