-- ===== src/Jobs/Assigning.antt =====
-- The administrator's assignment of a job, jobs_assign of backend/app/api/v1/jobs.py.
use clutch_d_backend.Base.{ℕ, ◌≡◌, ◌≢◌, refl, ap, ◌∙◌, false, none, some, ◌==◌, arith, find?}
use clutch_d_backend.Schema.{Job, JobStatus, ProviderType}
use clutch_d_backend.Session.{World, err, http}
use clutch_d_backend.Env.{Env}
use clutch_d_backend.Tables.{
  job_by_id, set_jobs, job_by_id-set_jobs, job_by_id-set_jobs_ne, job_by_id-id,
}
use clutch_d_backend.Jobs.Routes.{jobs_assign, assign_to}

-- The job has this provider and no other.
abbrev pub HasOnly : ProviderType → ℕ → Job → Type 0
HasOnly ProviderType.mechanic p job =
    (job.assigned_mechanic_id ≡ some p) × (job.assigned_garage_id ≡ none)
HasOnly ProviderType.garage p job =
    (job.assigned_garage_id ≡ some p) × (job.assigned_mechanic_id ≡ none)

assign_to-HasOnly :
    (env : Env) (type : ProviderType) (p : ℕ) (job : Job)
    → let job' = assign_to env type p job in
      (job'.id ≡ job.id)
      × (job'.status ≡ JobStatus.assigned)
      × (job'.assigned_type ≡ some type)
      × HasOnly type p job'
assign_to-HasOnly env ProviderType.mechanic p job = (refl, refl, refl, (refl, refl))
assign_to-HasOnly env ProviderType.garage p job = (refl, refl, refl, (refl, refl))

elsewhere : {k : ℕ} (j : ℕ) (job : Job) → job.id ≡ k → j ≢ k → (job.id == j) ≡ false
elsewhere j job at_k ne = ground arith

module _ (env : Env) (k : ℕ) (type : ProviderType) (p : ℕ) (w : World) where
  jobs_after :
      {job : Job}
      → job_by_id k w.db ≡ some job
      → (jobs_assign env k type p w).1.db.jobs ≡ set_jobs (assign_to env type p job) w.db.jobs
  unfolding jobs_assign
  jobs_after stored = ground arith

  absent : job_by_id k w.db ≡ none → jobs_assign env k type p w ≡ (err (http 404), w)
  unfolding jobs_assign
  absent gone = ground arith

  -- An unknown job gives a 404, and nothing changes. A stored job is assigned, whatever its status was,
  -- also completed or cancelled: it then has exactly the given provider, of the given type, and no
  -- other job changes.
  pub jobs_assign_lem :
      let (r, after) = jobs_assign env k type p w in
      (job_by_id k w.db ≡ none → (r ≡ err (http 404)) × (after ≡ w))
      × ((job : Job)
          → job_by_id k w.db ≡ some job
          → (job' : Job) × (job_by_id k after.db ≡ some job')
            × (job'.status ≡ JobStatus.assigned)
            × (job'.assigned_type ≡ some type)
            × HasOnly type p job'
            × ((j : ℕ) → j ≢ k → job_by_id j after.db ≡ job_by_id j w.db))
  jobs_assign_lem = (
    λ gone. (ap (λ r. r.0) (absent gone), ap (λ r. r.1) (absent gone)),
    λ job stored.
        let (same, assigned, typed, only) = assign_to-HasOnly env type p job in
        let at_k = same ∙ job_by_id-id k w.db.jobs stored in
        (
          assign_to env type p job,
          ap (find? (λ j. j.id == k)) (jobs_after stored)
              ∙ job_by_id-set_jobs k (assign_to env type p job) w.db.jobs stored at_k,
          assigned,
          typed,
          only,
          λ j ne.
              ap (find? (λ i. i.id == j)) (jobs_after stored)
              ∙ job_by_id-set_jobs_ne j (assign_to env type p job) w.db.jobs
                  (elsewhere j (assign_to env type p job) at_k ne),
        ),
  )
