-- ===== src/Work/Tests/Access.antt =====
-- Access to a job of another user.
use reading_wiki.Prelude.{◌≡◌, refl, ◌⊎◌, false, some, first_match}
use reading_wiki.Errors.{ok, err, not_found}
use reading_wiki.Work.Job.{Job}
use reading_wiki.Work.Store.{find}
use reading_wiki.Work.Transitions.{cancel_job}
use reading_wiki.Work.Service.{
  WorkPrincipal, IsOpenTo, owns, owned_job, get_owned, cancel_owned, job_access,
}
use reading_wiki.Work.Tests.Data.{db}

abbrev stranger : WorkPrincipal
stranger = record { user_id = 9; is_admin = false }

foreign : (owned_job 2 stranger db).0 ≡ err not_found
unfolding owned_job owns first_match
foreign = refl

job_access_example :
    ((j : Job) × (find 2 db.jobs ≡ some j)
      × IsOpenTo stranger j
      × (get_owned (λ j. j.progress) 2 stranger db ≡ (ok j.progress, db))
      × (cancel_owned 2 stranger db ≡ cancel_job 2 db))
    ⊎ (¬ ((j : Job) × (find 2 db.jobs ≡ some j) × IsOpenTo stranger j)
        × (cancel_owned 2 stranger db ≡ (err not_found, db))
        × (get_owned (λ j. j.progress) 2 stranger db ≡ (err not_found, db)))
job_access_example = job_access 2 stranger db (λ j. j.progress)
