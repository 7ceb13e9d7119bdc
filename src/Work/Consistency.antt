-- ===== src/Work/Consistency.antt =====
-- The invariant of the jobs table, and that every stable-property argument applies to it.
use reading_wiki.Prelude.{
  ◌+◌, ◌≤◌, ◌<◌, ◌≡◌, ap, subst, sym, ◌∙◌, String, Bool, true, some, [], ◌∷◌, All, All-put,
  All-map_where, All-append, All-weaken, All-first_match, map_where, count_where, count-put_le,
  count-map_where_le, count-append, count_one, arith, eq_iff, Option-cases, inl, inr,
}
use reading_wiki.Work.Job.{Job, Kind, same_kind, has_id}
use reading_wiki.Work.Store.{Db, find, put}
use reading_wiki.Work.Create.{is_duplicate, insert_job}
use reading_wiki.Work.Follows.{IsSound, Follows}
use reading_wiki.Work.Ids.{ids, Distinct, ids-put, ids-map_where, ids-append, Distinct-append}
use reading_wiki.Work.Stable.{IsStable, IsNew}

-- Ids are distinct and come from the sequence, every row is sound, and no two active jobs of one
-- kind share an idempotency key.
pub record IsConsistent (s : Db) : Type 0 where
  pub distinct : Distinct (ids s.jobs)
  pub below : All (λ i. i < s.next_id) (ids s.jobs)
  pub sound : All IsSound s.jobs
  pub deduplicated : (k : Kind) (key : String) → count_where (is_duplicate k key) s.jobs ≤ 1

-- A row that follows another counts as a duplicate only if that one did.
pub duplicate-Follows :
    (k : Kind) (key : String) {j j' : Job}
    → Follows j j'
    → is_duplicate k key j' ≡ true
    → is_duplicate k key j ≡ true
duplicate-Follows k key {j} {j'} f h = ground arith

row-IsConsistent :
    (s : Db) (j j' : Job)
    → find j.id s.jobs ≡ some j
    → Follows j j'
    → IsConsistent s
    → IsConsistent (record s { jobs = put j'.id j' s.jobs })
row-IsConsistent s j j' found f h =
    let found' : find j'.id s.jobs ≡ some j =
      subst (λ k. find k s.jobs ≡ some j) (sym f.id) found in
    record {
      distinct = rw ids-put h.distinct;
      below = rw ids-put h.below;
      sound =
          All-put IsSound (has_id j'.id) j' s.jobs h.sound
            (f.sound (All-first_match IsSound (has_id j.id) s.jobs {x = j} h.sound found));
      deduplicated = λ k key. omega (
        arith,
        h.deduplicated k key,
        count-put_le (is_duplicate k key) (has_id j'.id) j' s.jobs {x = j} found'
            (duplicate-Follows k key f),
      );
    }

rows-IsConsistent :
    (s : Db) (p : Job → Bool) (f : Job → Job)
    → ((j : Job) → p j ≡ true → Follows j (f j))
    → IsConsistent s
    → IsConsistent (record s { jobs = map_where p f s.jobs })
rows-IsConsistent s p f follows h = record {
  distinct = rw (ids-map_where p f s.jobs (λ j hit. (follows j hit).id)) h.distinct;
  below = rw (ids-map_where p f s.jobs (λ j hit. (follows j hit).id)) h.below;
  sound = All-map_where IsSound p f s.jobs (λ j hit. (follows j hit).sound) h.sound;
  deduplicated = λ k key. omega (
    arith,
    h.deduplicated k key,
    count-map_where_le (is_duplicate k key) p f s.jobs
        (λ j hit. duplicate-Follows k key (follows j hit)),
  );
}

same_kind-eq : (a b : Kind) → same_kind a b ≡ true → a ≡ b
same_kind-eq a b h = ground arith

-- A new row that counts as a duplicate is the only one.
first_of_key :
    (s : Db) (j : Job) (k : Kind) (key : String)
    → IsNew s j
    → is_duplicate k key j ≡ true
    → count_where (is_duplicate k key) s.jobs ≡ 0
first_of_key s j k key new h = elim (Option-cases j.idempotency_key) [
  | inl missing ↦ ground arith
  | inr (text, there) ↦
      let same_text : text ≡ key = ground (arith, eq_iff text key) in
      let same : j.kind ≡ k = same_kind-eq j.kind k (ground arith) in
      subst (λ (x : Kind). count_where (is_duplicate x key) s.jobs ≡ 0) same
        (new.no_duplicate key (there ∙ ap some same_text))
]

insert-IsConsistent :
    (s : Db) (j : Job) → IsNew s j → IsConsistent s → IsConsistent (insert_job j s)
insert-IsConsistent s j new h = record {
  distinct = rw ids-append (
      Distinct-append j.id (ids s.jobs)
        (subst (λ n. All (λ i. i < n) (ids s.jobs)) (sym new.id) h.below) h.distinct);
  below = rw ids-append (
      All-append (λ i. i < s.next_id + 1) (ids s.jobs) (j.id ∷ [])
        (All-weaken (λ i. i < s.next_id) (λ i. i < s.next_id + 1) (ids s.jobs)
          (λ i below. omega arith) h.below)
        (omega (arith, new.id), tt));
  sound = All-append IsSound s.jobs (j ∷ []) h.sound (new.sound, tt);
  deduplicated = λ k key. ground (
    arith,
    h.deduplicated k key,
    count-append (is_duplicate k key) s.jobs (j ∷ []),
    count_one (is_duplicate k key) j,
    first_of_key s j k key new,
  );
}

pub IsConsistent-IsStable : IsStable IsConsistent
IsConsistent-IsStable = record {
  row = row-IsConsistent;
  rows = rows-IsConsistent;
  insert = insert-IsConsistent;
  usage = λ s u h. record {
    distinct = h.distinct;
    below = h.below;
    sound = h.sound;
    deduplicated = h.deduplicated;
  };
  time = λ s n h. record {
    distinct = h.distinct;
    below = h.below;
    sound = h.sound;
    deduplicated = h.deduplicated;
  };
  distinct = λ s h. h.distinct;
}
