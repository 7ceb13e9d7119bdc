-- ===== src/Work/Refunds.antt =====
-- What settling a job does to its row and to the requester's quota.
use reading_wiki.Prelude.{
  ℕ, ◌-◌, ◌≡◌, refl, ap, ap₂, ◌∙◌, String, Bool, true, false, Option, some, List, arith,
  if◌then◌else◌, ltb, truthy, Bool-cases, inl, inr,
}
use reading_wiki.Errors.{Result, ok, err, ◌>>=◌}
use reading_wiki.Identity.Quota.Kinds.{QuotaKind, parse_kind}
use reading_wiki.Identity.Quota.Table.{Usage, get_usage}
use reading_wiki.Identity.Quota.Table
use reading_wiki.Identity.Quota.Service.{transaction_refund}
use reading_wiki.Identity.Quota.Cells.{same_cell, get_usage-refund}
use reading_wiki.Work.Job.{Job}
use reading_wiki.Work.Store.{Db, find, put, updated, written, update_returning, with_usage}
use reading_wiki.Work.Settlement.{
  settled_units, unsettled, settle, refund_to, finalize_job_quota, finalize,
}

-- The UPDATE of a known row.
update_known :
    (i : ℕ) (guard : Job → Bool) (set : ℕ → Job → Job) (s : Db) (j : Job)
    → find i s.jobs ≡ some j
    → update_returning i guard set s ≡ (
      ok (updated (some j) guard (set s.now)),
      record s { jobs = written i (updated (some j) guard (set s.now)) s.jobs },
    )
unfolding update_returning
update_known i guard set s j found = rw found

-- A job that is settled already is left alone, and so is every quota.
pub finalize-settled :
    (i : ℕ) (success : Bool) (s : Db) (j : Job)
    → find i s.jobs ≡ some j
    → j.quota_finalized ≡ true
    → finalize i success s ≡ (ok tt, s)
unfolding finalize finalize_job_quota ◌>>=◌
finalize-settled i success s j found settled =
    rw (update_known i unsettled (settle success) s j found) (rw settled)

truthy_kind : (kind : String) (k : QuotaKind) → parse_kind kind ≡ some k → truthy kind ≡ true
unfolding parse_kind
truthy_kind String.[] k h = cc
truthy_kind (String.◌∷◌ c rest) k h = refl

-- The refund of a known kind: it does not raise, leaves the jobs, and gives back at one cell.
refund_to_lem :
    (kind : String) (k : QuotaKind) (u units : ℕ) (s : Db)
    → parse_kind kind ≡ some k
    → (give : ℕ) × (t : List Usage) × (refund_to (some kind) (some u) units s
        ≡ (ok give, record s { usage = t }))
      × ((user period : ℕ) (q : QuotaKind)
          → get_usage user period t q ≡ (
              if same_cell u s.month k user period q
              then get_usage user period s.usage q - units
              else get_usage user period s.usage q))
unfolding refund_to with_usage transaction_refund ◌>>=◌
refund_to_lem kind k u units s parsed = elim (Bool-cases (ltb 0 units)) [
  | inl some_units ↦ (
    (Table.refund u s.month k units s.usage).0,
    (Table.refund u s.month k units s.usage).1,
    rw (truthy_kind kind k parsed, some_units) (rw parsed (ground arith)),
    λ user period q. (get_usage-refund u s.month user period k q units s.usage).1,
  )
  | inr no_units ↦ (0, s.usage, ground arith, λ user period q. ground arith)
]

-- What `finalize` returns after its refund.
abbrev pub after_refund : Db → Result ℕ × Db → Result (Unit {0}) × Db
after_refund s (ok give, s') = (ok tt, s')
after_refund s (err e, s') = (err e, s)

module _ (i : ℕ) (success : Bool) (s : Db) (j : Job) (found : find i s.jobs ≡ some j) where
  abbrev pub marked : Db
  marked = record s { jobs = put i (settle success s.now j) s.jobs }

  pub finalize-unsettled :
      j.quota_finalized ≡ false
      → finalize i success s
        ≡ after_refund s
            (refund_to j.quota_kind j.user_id (j.quota_reserved - settled_units success j) marked)
  unfolding finalize finalize_job_quota settle ◌>>=◌
  finalize-unsettled open_row =
      rw (update_known i unsettled (settle success) s j found) (ground arith)

  -- Settling a job marks it, fixes its consumed units, and gives the rest of the reservation back
  -- to the requester: of the kind reserved, in this month, and nowhere else.
  pub finalize-refunds :
      (kind : String) (k : QuotaKind) (u : ℕ)
      → j.quota_finalized ≡ false
      → j.quota_kind ≡ some kind
      → parse_kind kind ≡ some k
      → j.user_id ≡ some u
      → let (r, s') = finalize i success s in
        (r ≡ ok tt)
        × (s'.jobs
            ≡ put i
                (record j {
                  quota_finalized = true;
                  quota_consumed = settled_units success j;
                  updated_at = s.now;
                })
                s.jobs)
        × ((user period : ℕ) (q : QuotaKind)
            → get_usage user period s'.usage q ≡ (
                if same_cell u s.month k user period q
                then get_usage user period s.usage q - (j.quota_reserved - settled_units success j)
                else get_usage user period s.usage q))
  unfolding settle
  finalize-refunds kind k u open_row has_kind parsed has_user =
      let (give, t, ran, cells) =
        refund_to_lem kind k u (j.quota_reserved - settled_units success j) marked parsed in
      let to = λ (a : Option String) (b : Option ℕ).
        refund_to a b (j.quota_reserved - settled_units success j) marked in
      let e : finalize i success s ≡ (ok tt, record marked { usage = t }) =
        finalize-unsettled open_row ∙ ap (after_refund s) (ap₂ to has_kind has_user ∙ ran) in
      rw e (refl, refl, cells)
