-- ===== src/Codex/Bm25/Prefixes.antt =====
-- The indexes of prefixes: whatever is cached, the index of a ceiling is that of the chunks in sight.
use reading_wiki.Prelude.{
  ==_iff, ℕ, suc, ◌==◌, ◌≡◌, refl, sym, ap, subst, ◌∙◌, true, false, Option, none, some, List, [],
  ◌∷◌, ◌++◌, ltb, length, All, All-append, arith, Bool-cases, inl, inr,
}
use mathlib.Core.List.{map}
use reading_wiki.Codex.Bm25.{
  Chunk, Engine, Entry, Manager, index_of, eligible, at_places, text_of, find_entry, remove_entry,
  trim, use_prefix, retriever_for_ceiling,
}
use reading_wiki.Codex.Bm25.Places.{
  visible, visible_all, eligible_eq, eligible-Points, at_places-Points, length-Points,
}
use reading_wiki.Codex.Bm25.Valid.{IsCurrent, IsValid}

module _ (e : Engine) where
  open e use {Retriever, Signature, build, signature, same_signature}

  module _ (corpus : List Chunk) where
    find_entry-IsCurrent :
        (key : ℕ) (es : List (Entry e)) {v : Option Retriever × List ℕ}
        → All (IsCurrent e corpus) es
        → find_entry e key es ≡ some v
        → IsCurrent e corpus (key, v)
    unfolding find_entry
    find_entry-IsCurrent key [] all h = absurd (ground (arith, h))
    find_entry-IsCurrent key ((k, w) ∷ es) {v} all h = elim (Bool-cases (k == key)) [
      | inl same ↦
          let e' : (k, w) ≡ (key, v) = ground (arith, h, same) in
          subst (IsCurrent e corpus) e' all.0
      | inr other ↦ find_entry-IsCurrent key es all.1 (ground (arith, h, other))
    ]

    remove_entry-IsCurrent :
        (key : ℕ) (es : List (Entry e))
        → All (IsCurrent e corpus) es
        → All (IsCurrent e corpus) (remove_entry e key es)
    unfolding remove_entry
    remove_entry-IsCurrent key [] all = tt
    remove_entry-IsCurrent key ((k, w) ∷ es) all = elim (Bool-cases (k == key)) [
      | inl same ↦ rw same all.1
      | inr other ↦ rw other (all.0, remove_entry-IsCurrent key es all.1)
    ]

    trim-IsCurrent :
        (size : ℕ) (es : List (Entry e))
        → All (IsCurrent e corpus) es
        → All (IsCurrent e corpus) (trim e size es)
    unfolding trim
    trim-IsCurrent size [] all = tt
    trim-IsCurrent size (x ∷ es) all = elim (Bool-cases (ltb size (suc (length es)))) [
      | inl over ↦ rw over (trim-IsCurrent size es all.1)
      | inr fits ↦ rw fits all
    ]

    built-IsCurrent :
        (ceiling : ℕ)
        → let places = eligible ceiling corpus in
          IsCurrent e corpus
            (length places, (build (map text_of (at_places corpus places)), places))
    built-IsCurrent ceiling other same =
        let e' = eligible_eq other ceiling corpus same in
        (sym e', ap (λ is. build (map text_of (at_places corpus is))) (sym e'))

    index_of-build :
        (cs : List Chunk) → (length cs == 0) ≡ false → index_of e cs ≡ build (map text_of cs)
    unfolding index_of
    index_of-build [] h = absurd (ground (arith, h))
    index_of-build (c ∷ cs) h = refl

    module _ (ceiling : ℕ) where
      -- A choice of `_retriever_for_ceiling`: the places and the index of the chunks in sight.
      pub record Chosen (x : (Option Retriever × List ℕ) × List (Entry e)) : Type 0 where
        pub places : x.0.1 ≡ eligible ceiling corpus
        pub index : x.0.0 ≡ index_of e (visible ceiling corpus)
        pub current : All (IsCurrent e corpus) x.1

      in_sight : length (eligible ceiling corpus) ≡ length (visible ceiling corpus)
      in_sight = length-Points corpus _ _ (eligible-Points ceiling corpus)

      prefix_index :
          (length (eligible ceiling corpus) == 0) ≡ false
          → build (map text_of (at_places corpus (eligible ceiling corpus)))
            ≡ index_of e (visible ceiling corpus)
      prefix_index h =
          ap (λ cs. build (map text_of cs))
            (at_places-Points corpus _ _ (eligible-Points ceiling corpus))
          ∙ sym (index_of-build (visible ceiling corpus) (rw (← in_sight) h))

      use_prefix-Chosen :
          (size : ℕ) (prefixes : List (Entry e)) (o : Option (Option Retriever × List ℕ))
          → (length (eligible ceiling corpus) == 0) ≡ false
          → find_entry e (length (eligible ceiling corpus)) prefixes ≡ o
          → All (IsCurrent e corpus) prefixes
          → Chosen (use_prefix e size corpus prefixes (eligible ceiling corpus) o)
      unfolding use_prefix
      use_prefix-Chosen size prefixes (some (r, is)) h found all =
          let key : ℕ = length (eligible ceiling corpus) in
          let entry = find_entry-IsCurrent key prefixes {v = (r, is)} all found in
          record {
            places = (entry ceiling refl).0;
            index = (entry ceiling refl).1 ∙ prefix_index h;
            current =
                All-append (IsCurrent e corpus) (remove_entry e key prefixes) ((key, (r, is)) ∷ [])
                  (remove_entry-IsCurrent key prefixes all) (entry, tt);
          }
      use_prefix-Chosen size prefixes none h found all =
          let places : List ℕ = eligible ceiling corpus in
          let v : Option Retriever × List ℕ =
            (build (map text_of (at_places corpus places)), places) in
          record {
            places = refl;
            index = prefix_index h;
            current = trim-IsCurrent size (prefixes ++ ((length places, v) ∷ [])) (
                All-append (IsCurrent e corpus) prefixes ((length places, v) ∷ []) all
                  (built-IsCurrent ceiling, tt));
          }

  no_chunks : (cs : List Chunk) → (length cs == 0) ≡ true → none ≡ index_of e cs
  unfolding index_of
  no_chunks [] h = refl
  no_chunks (c ∷ cs) h = absurd (ground (arith, h))

  pub retriever_for_ceiling-Chosen :
      (size : ℕ) (m : Manager e) (ceiling : ℕ)
      → IsValid e m
      → Chosen m.corpus ceiling (retriever_for_ceiling e size m ceiling)
  unfolding retriever_for_ceiling
  retriever_for_ceiling-Chosen size m ceiling v =
      let n : ℕ = length (eligible ceiling m.corpus) in
      elim (Bool-cases (n == 0)) [
        | inl nothing ↦ rw nothing (record {
          places = refl;
          index = no_chunks (visible ceiling m.corpus) (rw (← in_sight m.corpus ceiling) nothing);
          current = v.current;
        })
        | inr some_there ↦ rw some_there (elim (Bool-cases (n == length m.corpus)) [
          | inl whole ↦ rw whole (record {
            places = refl;
            index =
                v.indexed
                ∙ ap (index_of e) (
                    sym (
                      visible_all ceiling m.corpus
                        (sym (in_sight m.corpus ceiling) ∙ (==_iff n (length m.corpus)).0 whole)));
            current = v.current;
          })
          | inr part ↦
              rw part
                (use_prefix-Chosen m.corpus ceiling size m.prefixes _ some_there refl v.current)
        ])
      ]
