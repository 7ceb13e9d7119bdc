-- ===== src/Codex/Bm25/Valid.antt =====
-- What holds of a manager: its index is that of its corpus, the prefix indexes are those of their
-- prefixes, and the index on disk is that of the corpus that its signature names.
use reading_wiki.Prelude.{
  ℕ, ◌≡◌, refl, sym, subst, ◌∙◌, Bool, true, false, not, ◌||◌, Option, none, some, List, [], ◌∷◌,
  length, All, arith, Bool-cases, Option-cases, inl, inr, if◌then◌else◌,
}
use mathlib.Core.List.{map}
use reading_wiki.Codex.Bm25.{
  Chunk, Engine, Entry, Manager, empty_manager, index_of, eligible, at_places, text_of, load_corpus,
  build_retriever, save, saved, load_from_disk, load_or_build_index, ensure_loaded, rebuild,
  build_and_save, mark_loaded,
}

module _ (e : Engine) where
  open e use {Retriever, Signature, build, signature, same_signature}

  -- A signature names one corpus, as far as its texts, chapters and order go.
  unfoldable pub IsFaithful : Type 0
  IsFaithful = (xs ys : List Chunk) → same_signature (signature xs) (signature ys) ≡ true → xs ≡ ys

  -- The entry is what would be built for every ceiling that has its key.
  abbrev pub IsCurrent : List Chunk → Entry e → Type 0
  IsCurrent corpus entry =
      (ceiling : ℕ)
      → length (eligible ceiling corpus) ≡ entry.0
      → (entry.1.1 ≡ eligible ceiling corpus)
        × (entry.1.0 ≡ build (map text_of (at_places corpus (eligible ceiling corpus))))

  abbrev pub IsStored : Option (Signature × Retriever) → Type 0
  IsStored none = Unit {0}
  IsStored (some (s, r)) =
      (corpus : List Chunk) × ((s ≡ signature corpus) × (index_of e corpus ≡ some r))

  pub record IsValid (m : Manager e) : Type 0 where
    pub indexed : m.retriever ≡ index_of e m.corpus
    pub current : All (IsCurrent m.corpus) m.prefixes
    pub stored : IsStored m.disk

  pub empty-IsValid : IsValid (empty_manager e)
  unfolding index_of
  empty-IsValid = record { indexed = refl; current = tt; stored = tt }

  -- ── loading ──

  saved-IsStored :
      (corpus : List Chunk) (o : Option Retriever) (disk : Option (Signature × Retriever))
      → o ≡ index_of e corpus
      → IsStored disk
      → IsStored (saved e o corpus disk)
  saved-IsStored corpus none disk h s = s
  saved-IsStored corpus (some r) disk h s = (corpus, (refl, sym h))

  build_and_save-IsValid :
      (rows : List Chunk) (m : Manager e)
      → IsValid m
      → IsValid (build_and_save e (load_corpus e rows m))
  unfolding load_corpus build_retriever save
  build_and_save-IsValid rows m v = record {
    indexed = refl;
    current = tt;
    stored = saved-IsStored rows (index_of e rows) m.disk refl v.stored;
  }

  no_rows-IsValid :
      (m : Manager e)
      → IsValid m
      → IsValid (mark_loaded e (record (load_corpus e [] m) { retriever = none }))
  unfolding load_corpus index_of
  no_rows-IsValid m v = record { indexed = refl; current = tt; stored = v.stored }

  pub rebuild-IsValid : (rows : List Chunk) (m : Manager e) → IsValid m → IsValid (rebuild e rows m)
  unfolding rebuild
  rebuild-IsValid [] m v = no_rows-IsValid m v
  rebuild-IsValid (c ∷ rows) m v = build_and_save-IsValid (c ∷ rows) m v

  stored_index :
      (faithful : IsFaithful) (readable : Bool) (corpus : List Chunk)
      (disk : Option (Signature × Retriever)) {r : Retriever}
      → IsStored disk
      → elim disk [
        | none ↦ none
        | some (s, r') ↦
            if not readable || not (same_signature s (signature corpus)) then none else some r'
      ]
        ≡ some r
      → index_of e corpus ≡ some r
  unfolding IsFaithful
  stored_index faithful readable corpus none {r} stored h = absurd (ground (arith, h))
  stored_index faithful readable corpus (some (s, r')) {r} (before, (named, indexed)) h =
      elim (Bool-cases (not readable || not (same_signature s (signature corpus)))) [
        | inl refused ↦ absurd (ground (arith, h, refused))
        | inr taken ↦
            let same : same_signature (signature before) (signature corpus) ≡ true =
              subst (λ x. same_signature x (signature corpus) ≡ true) named
                (ground (arith, taken)) in
            let kept : some r' ≡ some r = ground (arith, h, taken) in
            subst (λ cs. index_of e cs ≡ some r) (faithful before corpus same) (indexed ∙ kept)
      ]

  load_from_disk-index_of :
      (faithful : IsFaithful) (readable : Bool) (m : Manager e) {r : Retriever}
      → IsStored m.disk
      → load_from_disk e readable m ≡ some r
      → index_of e m.corpus ≡ some r
  unfolding load_from_disk
  load_from_disk-index_of faithful readable m stored h =
      stored_index faithful readable m.corpus m.disk stored h

  pub load_or_build_index-IsValid :
      (faithful : IsFaithful) (rows : List Chunk) (readable : Bool) (m : Manager e)
      → IsValid m
      → IsValid (load_or_build_index e rows readable m)
  unfolding load_or_build_index
  load_or_build_index-IsValid faithful [] readable m v = no_rows-IsValid m v
  load_or_build_index-IsValid faithful (c ∷ rows) readable m v =
      let m' : Manager e = load_corpus e (c ∷ rows) m in
      elim (Option-cases (load_from_disk e readable m')) [
        | inl absent ↦ rw absent (build_and_save-IsValid (c ∷ rows) m v)
        | inr (r, there) ↦ rw there (record {
          indexed = sym (load_from_disk-index_of faithful readable m' v.stored there);
          current = tt;
          stored = v.stored;
        })
      ]

  pub ensure_loaded-IsValid :
      (faithful : IsFaithful) (rows : List Chunk) (readable : Bool) (m : Manager e)
      → IsValid m
      → IsValid (ensure_loaded e rows readable m)
  unfolding ensure_loaded
  ensure_loaded-IsValid faithful rows readable m v =
      if_lem m.loaded v (load_or_build_index-IsValid faithful rows readable m v)
    where
      if_lem : (c : Bool) {x y : Manager e} → IsValid x → IsValid y → IsValid (if c then x else y)
      if_lem true vx vy = vx
      if_lem false vx vy = vy
