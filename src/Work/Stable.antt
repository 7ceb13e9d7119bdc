-- ===== src/Work/Stable.antt =====
-- Properties of the database that every statement of the Work module keeps, and rules that carry
-- them through actions.
use reading_wiki.Prelude.{
  ℕ, ◌+◌, ◌≡◌, refl, subst, sym, ◌∙◌, String, Bool, true, false, Option, none, some, List,
  map_where, count_where, if◌then◌else◌, Bool-cases, inl, inr, first_match_holds, ==_iff,
}
use reading_wiki.Errors.{
  Error, Result, ok, err, pure, raise, or_raise, gets, when◌then◌else◌, on_option, atomically,
  catch, ◌>>=◌, commit_or_rollback, rescue, continue,
}
use reading_wiki.Identity.Quota.Table.{Usage}
use reading_wiki.Identity.Quota.Service.{QuotaExec}
use reading_wiki.Work.Job.{Job, is_queued, has_id}
use reading_wiki.Work.Store.{Db, Work, find, put, updated, written, update_returning, with_usage}
use reading_wiki.Work.Create.{is_duplicate, insert_job}
use reading_wiki.Work.Follows.{IsSound, Follows, Respects}
use reading_wiki.Work.Ids.{ids, Distinct}

-- What an INSERT adds.
pub record IsNew (s : Db) (j : Job) : Type 0 where
  pub id : j.id ≡ s.next_id
  pub queued : is_queued j.status ≡ true
  pub sound : IsSound j
  pub unsettled : j.quota_finalized ≡ false
  pub no_duplicate :
      (key : String)
      → j.idempotency_key ≡ some key
      → count_where (is_duplicate j.kind key) s.jobs ≡ 0

pub record IsStable (P : Db → Type 0) : Type 0 where
  pub row :
      (s : Db) (j j' : Job)
      → find j.id s.jobs ≡ some j
      → Follows j j'
      → P s
      → P (record s { jobs = put j'.id j' s.jobs })
  pub rows :
      (s : Db) (p : Job → Bool) (f : Job → Job)
      → ((j : Job) → p j ≡ true → Follows j (f j))
      → P s
      → P (record s { jobs = map_where p f s.jobs })
  pub insert : (s : Db) (j : Job) → IsNew s j → P s → P (insert_job j s)
  pub usage : (s : Db) (u : List Usage) → P s → P (record s { usage = u })
  pub time : (s : Db) (seconds : ℕ) → P s → P (record s { now = s.now + seconds })
  pub distinct : (s : Db) → P s → Distinct (ids s.jobs)

-- `m` keeps `P`, whether it returns or raises.
pub record Keeps (P : Db → Type 0) {A : Type 0} (m : Work A) : Type 0 where
  pub at : (s : Db) → P s → P (m s).1

rollback_at :
    {A : Type 0} (P : Db → Type 0) (r : Result A) (s s' : Db)
    → P s
    → P s'
    → P (commit_or_rollback r s s').1
rollback_at P (ok a) s s' h h' = h'
rollback_at P (err e) s s' h h' = h

module _ {P : Db → Type 0} {A : Type 0} where
  pub Keeps-pure : (a : A) → Keeps P (pure a)
  unfolding pure
  Keeps-pure a = record { at = λ s h. h }

  pub Keeps-raise : (e : Error) → Keeps P (raise {A = A} e)
  unfolding raise
  Keeps-raise e = record { at = λ s h. h }

  pub Keeps-or_raise : (o : Option A) (e : Error) → Keeps P (or_raise o e)
  unfolding or_raise
  Keeps-or_raise none e = record { at = λ s h. h }
  Keeps-or_raise (some a) e = record { at = λ s h. h }

  pub Keeps-gets : (f : Db → A) → Keeps P (gets f)
  unfolding gets
  Keeps-gets f = record { at = λ s h. h }

  pub Keeps-when :
      (c : Bool) (m n : Work A) → Keeps P m → Keeps P n → Keeps P (when c then m else n)
  unfolding when◌then◌else◌
  Keeps-when true m n km kn = record { at = λ s h. km.at s h }
  Keeps-when false m n km kn = record { at = λ s h. kn.at s h }

  rescue_at :
      (r : Result A) (handler : Error → Work A) (s : Db)
      → ((e : Error) → Keeps P (handler e))
      → P s
      → P (rescue r handler s).1
  rescue_at (ok a) handler s kh h = h
  rescue_at (err e) handler s kh h = (kh e).at s h

  -- a rollback restores the state before
  pub Keeps-atomically : (m : Work A) → Keeps P m → Keeps P (atomically m)
  unfolding atomically
  Keeps-atomically m km = record { at = λ s h. rollback_at P (m s).0 s (m s).1 h (km.at s h) }

  pub Keeps-catch :
      (m : Work A) (handler : Error → Work A)
      → Keeps P m
      → ((e : Error) → Keeps P (handler e))
      → Keeps P (catch m handler)
  unfolding catch
  Keeps-catch m handler km kh = record {
    at = λ s h. rescue_at (m s).0 handler (m s).1 kh (km.at s h);
  }

module _ {P : Db → Type 0} {A B : Type 0} where
  pub Keeps-on_option :
      (o : Option A) (m : Work B) (f : A → Work B)
      → Keeps P m
      → ((a : A) → Keeps P (f a))
      → Keeps P (on_option o m f)
  unfolding on_option
  Keeps-on_option none m f km kf = record { at = λ s h. km.at s h }
  Keeps-on_option (some a) m f km kf = record { at = λ s h. (kf a).at s h }

  continue_at :
      (r : Result A) (f : A → Work B) (s : Db)
      → ((a : A) → Keeps P (f a))
      → P s
      → P (continue r f s).1
  continue_at (ok a) f s kf h = (kf a).at s h
  continue_at (err e) f s kf h = h

  pub Keeps-bind :
      (m : Work A) (f : A → Work B) → Keeps P m → ((a : A) → Keeps P (f a)) → Keeps P (m >>= f)
  unfolding ◌>>=◌
  Keeps-bind m f km kf = record { at = λ s h. continue_at (m s).0 f (m s).1 kf (km.at s h) }

pub ruleset keeps_rules = (
  Keeps-pure, Keeps-raise, Keeps-or_raise, Keeps-gets, Keeps-when, Keeps-atomically, Keeps-catch,
  Keeps-on_option, Keeps-bind,
)

module _ {P : Db → Type 0} (stable : IsStable P) where
  update_row :
      (s : Db) (i : ℕ) (guard : Job → Bool) (set : ℕ → Job → Job) (j : Job)
      → (guard j ≡ true → Follows j (set s.now j))
      → find i s.jobs ≡ some j
      → P s
      → P (record s { jobs = written i (updated (some j) guard (set s.now)) s.jobs })
  update_row s i guard set j respects found h = elim (Bool-cases (guard j)) [
    | inl fits ↦
        let same : j.id ≡ i =
          (==_iff j.id i).0 (first_match_holds (has_id i) s.jobs {x = j} found) in
        let step = respects fits in
        let found' : find j.id s.jobs ≡ some j =
          subst (λ k. find k s.jobs ≡ some j) (sym same) found in
        rw fits (
          subst (λ k. P (record s { jobs = put k (set s.now j) s.jobs })) (step.id ∙ same)
            (stable.row s j (set s.now j) found' step h))
    | inr not_met ↦ rw not_met h
  ]

  update_at :
      (s : Db) (i : ℕ) (guard : Job → Bool) (set : ℕ → Job → Job) (o : Option Job)
      → Respects guard set
      → find i s.jobs ≡ o
      → P s
      → P (record s { jobs = written i (updated o guard (set s.now)) s.jobs })
  update_at s i guard set none respects found h = h
  update_at s i guard set (some j) respects found h =
      update_row s i guard set j (respects s.now j) found h

  -- the same where the row is known
  pub update_found :
      (s : Db) (i : ℕ) (guard : Job → Bool) (set : ℕ → Job → Job) (j : Job)
      → (guard j ≡ true → Follows j (set s.now j))
      → find i s.jobs ≡ some j
      → P s
      → P (update_returning i guard set s).1
  unfolding update_returning
  update_found s i guard set j respects found h =
      subst (λ o. P (record s { jobs = written i (updated o guard (set s.now)) s.jobs }))
        (sym found) (update_row s i guard set j respects found h)

  pub Keeps-update :
      (i : ℕ) (guard : Job → Bool) (set : ℕ → Job → Job)
      → Respects guard set
      → Keeps P (update_returning i guard set)
  unfolding update_returning
  Keeps-update i guard set respects = record {
    at = λ s h. update_at s i guard set (find i s.jobs) respects refl h;
  }

  pub Keeps-usage : {A : Type 0} (m : ℕ → QuotaExec A) → Keeps P (with_usage m)
  unfolding with_usage
  Keeps-usage m = record { at = λ s h. stable.usage s (m s.month s.usage).1 h }
