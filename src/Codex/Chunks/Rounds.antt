-- ===== src/Codex/Chunks/Rounds.antt =====
-- The rounds of `group`, one after the other: the loop ends, and its chunks cover the pieces.
use reading_wiki.Prelude.{
  ℕ, zero, suc, ◌+◌, ◌-◌, ◌*◌, ◌≤◌, ◌<◌, ◌≡◌, refl, sym, ap, subst, ◌∙◌, ◌⊎◌, ◌≢◌, inl, inr, true,
  false, Option, some, List, [], ◌∷◌, ◌++◌, leb, min, length, arith, Bool-cases, leb_iff,
  All-append_left,
}
use mathlib.Core.List.{reverse, reverse-append, reverse-cons, append_assoc, append-nil}
use reading_wiki.Codex.Chunks.{
  total, backtrack, available_overlap, save, overflow, group, chunk_pieces,
}
use reading_wiki.Codex.Chunks.Cover.{
  NextChunk, Cover, Covered, Kept, Fits, AllPositive, total-reverse, backtrack_lem, Kept-Fits,
}

module _ {A : Type 0} (cost : A → ℕ) (target overlap : ℕ) where
  module _ (before skipped repeated : List A) (first : A) (more current : List A)
      (tail : before ≡ skipped ++ repeated)
      (contents : reverse current ≡ repeated ++ (first ∷ more))
      (few : total cost repeated ≤ overlap)
      (small : (total cost (reverse current) ≤ target) ⊎ (reverse current ≡ first ∷ [])) where
    saved-NextChunk :
        (waiting : List A)
        → NextChunk cost target overlap before ((first ∷ more) ++ waiting) (reverse current) waiting
    saved-NextChunk waiting = record {
      skipped = skipped;
      repeated = repeated;
      first = first;
      more = more;
      tail = tail;
      contents = contents;
      order = refl;
      small_overlap = few;
      small = small;
    }

    save-Covered :
        (next : List A → List A → ℕ → Option (List (List A))) (waiting : List A)
        → ((piece : A) (w kept : List A) (accum : ℕ)
            → waiting ≡ piece ∷ w
            → Kept cost (available_overlap cost target overlap piece) 0 current kept accum
            → Covered cost target overlap (reverse current) waiting (next waiting kept accum))
        → Covered cost target overlap before
            ((first ∷ more) ++ waiting)
            (save cost target overlap next waiting current)
    unfolding save
    save-Covered next [] ih = (reverse current ∷ [], (refl, ([], (saved-NextChunk [], refl))))
    save-Covered next (piece ∷ w) ih =
        let available : ℕ = available_overlap cost target overlap piece in
        let (kept, accum) = backtrack cost available 0 current in
        let (chunks, (e, cover)) =
          ih piece w kept accum refl (backtrack_lem cost available 0 current (omega arith)) in
        (reverse current ∷ chunks, (rw e refl, (piece ∷ w, (saved-NextChunk (piece ∷ w), cover))))

  group-fits :
      (fuel tokens : ℕ) (piece : A) (waiting current : List A)
      → leb (tokens + cost piece) target ≡ true
      → group cost target overlap (suc fuel) (piece ∷ waiting) current tokens
        ≡ group cost target overlap fuel waiting (piece ∷ current) (tokens + cost piece)
  unfolding group
  group-fits fuel tokens piece waiting current e = rw (e, group)

  group-full :
      (fuel tokens : ℕ) (piece : A) (waiting current : List A)
      → leb (tokens + cost piece) target ≡ false
      → group cost target overlap (suc fuel) (piece ∷ waiting) current tokens
        ≡ overflow cost target overlap (group cost target overlap fuel) piece waiting current
  unfolding group
  group-full fuel tokens piece waiting current e = rw (e, group)

  group-done : (fuel tokens : ℕ) → group cost target overlap (suc fuel) [] [] tokens ≡ some []
  unfolding group
  group-done fuel tokens = refl

  group-last :
      (fuel tokens : ℕ) (x : A) (current : List A)
      → group cost target overlap (suc fuel) [] (x ∷ current) tokens
        ≡ some (reverse (x ∷ current) ∷ [])
  unfolding group
  group-last fuel tokens x current = refl

  append_cons_ne : (xs : List A) (y : A) (ys : List A) → [] ≢ xs ++ (y ∷ ys)
  append_cons_ne [] y ys h = cc
  append_cons_ne (x ∷ xs) y ys h = cc

  -- Right after a chunk was saved: the chunk in the making holds its last pieces, and the next one
  -- fits.
  abbrev ReadyAt : ℕ → Type 0
  ReadyAt fuel =
      (before skipped current waiting : List A) (tokens : ℕ)
      → 2 * length waiting + 1 ≤ fuel
      → before ≡ skipped ++ reverse current
      → tokens ≡ total cost current
      → tokens ≤ overlap
      → tokens ≤ target
      → AllPositive cost current
      → AllPositive cost waiting
      → (current ≡ []) ⊎ Fits cost target overlap tokens waiting
      → Covered cost target overlap before waiting
          (group cost target overlap fuel waiting current tokens)

  -- With new pieces in the chunk in the making.
  abbrev GrowingAt : ℕ → Type 0
  GrowingAt fuel =
      (before skipped repeated : List A) (first : A) (more current waiting : List A) (tokens : ℕ)
      → 2 * length waiting + 2 ≤ fuel
      → before ≡ skipped ++ repeated
      → reverse current ≡ repeated ++ (first ∷ more)
      → total cost repeated ≤ overlap
      → tokens ≡ total cost current
      → tokens ≤ target
      → AllPositive cost current
      → AllPositive cost waiting
      → Covered cost target overlap before ((first ∷ more) ++ waiting)
          (group cost target overlap fuel waiting current tokens)

  module _ (fuel : ℕ) (ready : ReadyAt fuel) where
    resume-Covered :
        (current waiting : List A)
        → 2 * length waiting + 1 ≤ fuel
        → AllPositive cost current
        → AllPositive cost waiting
        → (piece : A) (w kept : List A) (accum : ℕ) → waiting ≡ piece ∷ w
        → Kept cost (available_overlap cost target overlap piece) 0 current kept accum
        → Covered cost target overlap
            (reverse current)
            waiting
            (group cost target overlap fuel waiting kept accum)
    resume-Covered current waiting f pc pw piece w kept accum e k =
        let room : accum ≤ min overlap (target - cost piece) = k.fits in
        ready (reverse current) (reverse k.dropped) kept waiting accum f
          (ap reverse k.split ∙ reverse-append kept k.dropped) (omega (arith, k.counted))
          (ground (arith, room)) (ground (arith, room))
          (All-append_left (λ x. 0 < cost x) kept k.dropped (subst (AllPositive cost) k.split pc))
          pw
          (subst (λ ys. (kept ≡ []) ⊎ Fits cost target overlap accum ys) (sym e)
            (Kept-Fits cost target overlap piece w current kept accum k pc))

    module _ (growing : GrowingAt fuel) where
      ready_step : ReadyAt (suc fuel)
      unfolding total overflow
      ready_step before skipped current [] tokens f tail t few bound pc pw (inl empty) =
          rw empty ([], (group-done fuel tokens, refl))
      ready_step before skipped current [] tokens f tail t few bound pc pw (inr fits) =
          absurd (omega arith)
      ready_step before skipped current (piece ∷ w) tokens f tail t few bound pc pw r =
          elim (Bool-cases (leb (tokens + cost piece) target)) [
            | inl e ↦ rw (group-fits fuel tokens piece w current e) (
                growing before skipped (reverse current) piece [] (piece ∷ current) w
                  (tokens + cost piece) (omega arith) tail (reverse-cons piece current)
                  (subst (λ n. n ≤ overlap) (t ∙ sym (total-reverse cost current)) few)
                  (omega (arith, t)) ((leb_iff _ _).0 e) (pw.0, pc) pw.1)
            | inr e ↦ rw (group-full fuel tokens piece w current e) (elim r [
              | inl empty ↦ rw empty (
                  save-Covered before before [] piece [] (piece ∷ []) (sym (append-nil before)) refl
                    (omega arith) (inr refl) (group cost target overlap fuel) w
                    (resume-Covered (piece ∷ []) w (omega arith) (pw.0, tt) pw.1))
              | inr fits ↦ absurd (ground (arith, fits, e))
            ])
          ]

      growing_step : GrowingAt (suc fuel)
      unfolding total overflow
      growing_step before skipped repeated first more [] waiting tokens f tail contents few t bound
            pc pw =
          absurd (append_cons_ne repeated first more contents)
      growing_step before skipped repeated first more (x ∷ current) [] tokens f tail contents few t
            bound pc pw =
          (
            reverse (x ∷ current) ∷ [],
            (
              group-last fuel tokens x current,
              (
                [],
                (
                  saved-NextChunk before skipped repeated first more (x ∷ current) tail contents few
                      (inl (
                        subst (λ n. n ≤ target) (t ∙ sym (total-reverse cost (x ∷ current))) bound))
                      [],
                  refl,
                ),
              ),
            ),
          )
      growing_step before skipped repeated first more (x ∷ current) (piece ∷ w) tokens f tail
            contents few t bound pc pw =
          elim (Bool-cases (leb (tokens + cost piece) target)) [
            | inl e ↦ rw (group-fits fuel tokens piece w (x ∷ current) e) (
                subst
                  (λ ps. Covered cost target overlap before (first ∷ ps) (
                    group cost target overlap fuel w (piece ∷ (x ∷ current)) (tokens + cost piece)))
                  (append_assoc more (piece ∷ []) w)
                  (growing before skipped repeated first (more ++ (piece ∷ []))
                    (piece ∷ (x ∷ current)) w (tokens + cost piece) (omega arith) tail
                    (reverse-cons piece (x ∷ current)
                      ∙ ap (λ ys. ys ++ (piece ∷ [])) contents
                      ∙ append_assoc repeated (first ∷ more) (piece ∷ []))
                    few (omega (arith, t)) ((leb_iff _ _).0 e) (pw.0, pc) pw.1))
            | inr e ↦ rw (group-full fuel tokens piece w (x ∷ current) e) (
                save-Covered before skipped repeated first more (x ∷ current) tail contents few
                  (inl (subst (λ n. n ≤ target) (t ∙ sym (total-reverse cost (x ∷ current))) bound))
                  (group cost target overlap fuel) (piece ∷ w)
                  (resume-Covered (x ∷ current) (piece ∷ w) (omega arith) pc pw))
          ]

  steps : (fuel : ℕ) → ReadyAt fuel × GrowingAt fuel
  steps zero = (
    λ before skipped current waiting tokens f tail t few bound pc pw r. absurd (omega arith),
    λ before skipped repeated first more current waiting tokens f tail contents few t bound pc pw.
        absurd (omega arith),
  )
  steps (suc fuel) =
      let (ready, growing) = steps fuel in
      (ready_step fuel ready growing, growing_step fuel ready growing)

  -- The loop ends, and its chunks cover the pieces.
  pub chunk_pieces-Cover :
      (pieces : List A)
      → AllPositive cost pieces
      → (chunks : List (List A)) × ((chunk_pieces cost target overlap pieces ≡ some chunks)
          × Cover cost target overlap [] pieces chunks)
  unfolding chunk_pieces total
  chunk_pieces-Cover pieces positive =
      (steps (2 * length pieces + 1)).0 [] [] [] pieces 0 (omega arith) refl refl (omega arith)
        (omega arith) tt positive (inl refl)
