-- ===== src/Jobs/Lifecycle.antt =====
-- Histories of requests to the routes of backend/app/api/v1/service.py that change a job's status.
use clutch_d_backend.Base.{
  ℕ, ◌≡◌, sym, subst, ◌∙◌, ap, ◌⊎◌, inl, inr, refl, true, not, Option, some, List, [], ◌∷◌, ◌==◌,
  arith, Bool-cases, find?, ==_eq, some_inj,
}
use clutch_d_backend.Schema.{Db, Float, User, Job, JobStatus}
use clutch_d_backend.Session.{Action, World, Error, http, in_session, ◌>>=◌}
use clutch_d_backend.Session.Keeps.{in_session-keeps, or_raise-keeps, raise_if-keeps}
use clutch_d_backend.Env.{Env}
use clutch_d_backend.Tables.{
  job_by_id, set_jobs, job_by_id-set_jobs, job_by_id-set_jobs_ne, job_by_id-id,
}
use clutch_d_backend.Jobs.Transitions.{is_closed}
use clutch_d_backend.Jobs.Access.{get_job_for_user}
use clutch_d_backend.Jobs.Status.{patch_job_status, complete_job_with_payment, cancel_job}
use clutch_d_backend.Jobs.Pricing.{finalize_job_price}
use clutch_d_backend.Jobs.Routes.{
  patch_request_status, finalize_price, complete_request, cancel_request, map_error, visible_job,
  internal_error, conflict_error, is_provider_or_admin,
}
use clutch_d_backend.Jobs.Edges.{
  Edge, Moves, patch_job_status-Moves, finalize_job_price-Moves, complete_job_with_payment-Moves,
  cancel_job-Moves,
}

pub data Request : Type 0 where
  patch : (job : ℕ) → User → JobStatus → Option ℕ → Request
  finalize : (job : ℕ) → User → Float → Request
  complete : (job : ℕ) → User → Request
  cancel : (job : ℕ) → User → Request

-- One request in a session of its own.
pub serve : Env → Request → World → World
serve env (Request.patch k user status m) w =
    (in_session (patch_request_status env k user status m) w).1
serve env (Request.finalize k user amount) w = (in_session (finalize_price env k user amount) w).1
serve env (Request.complete k user) w = (in_session (complete_request env k user) w).1
serve env (Request.cancel k user) w = (in_session (cancel_request k user) w).1

pub serve_all : Env → List Request → World → World
serve_all env [] w = w
serve_all env (r ∷ rs) w = serve_all env rs (serve env r w)

-- What a request does to the table of jobs: nothing, or one stored job moves.
abbrev pub Served : Db → Db → Type 0
Served before after =
    (after.jobs ≡ before.jobs)
    ⊎ ((job : Job) × (job_by_id job.id before ≡ some job) × Moves job before.jobs after.jobs)

get_job_for_user-id :
    (k : ℕ) (user : User) (db : Db) (job : Job)
    → get_job_for_user k user db ≡ some job
    → job_by_id k db ≡ some job
unfolding get_job_for_user
get_job_for_user-id k user db job h = ground arith

get_job_for_user-stored :
    (k : ℕ) (user : User) (db : Db) (job : Job)
    → get_job_for_user k user db ≡ some job
    → job_by_id job.id db ≡ some job
get_job_for_user-stored k user db job h =
    let e = get_job_for_user-id k user db job h in
    subst (λ n. job_by_id n db ≡ some job) (sym (job_by_id-id k db.jobs e)) e

map_error-world {ℓ} :
    {A : Type ℓ} (f : Error → Error) (m : Action A) (w : World) → (map_error f m w).1 ≡ (m w).1
map_error-world f m w = ground arith

module _ (k : ℕ) (user : User) (w : World) where
  visible_job-Served {ℓ} :
      {A : Type ℓ} (f : Job → Action A)
      → ((job : Job) → Moves job w.db.jobs (f job w).1.db.jobs)
      → Served w.db ((visible_job k user >>= f) w).1.db
  visible_job-Served f moves =
      or_raise-keeps (Served w.db) (get_job_for_user k user w.db) (http 404) f w (inl refl)
        λ job found. inr (job, get_job_for_user-stored k user w.db job found, moves job)

pub serve-Served : (env : Env) (r : Request) (w : World) → Served w.db (serve env r w).db
unfolding serve patch_request_status finalize_price complete_request cancel_request
serve-Served env (Request.patch k user status m) w =
    in_session-keeps (Served w.db) (patch_request_status env k user status m) w (inl refl) (
      visible_job-Served k user w
        (λ job. map_error internal_error (patch_job_status env job status m))
        λ job.
          rw (map_error-world internal_error (patch_job_status env job status m) w)
            (patch_job_status-Moves env job w status m))
serve-Served env (Request.finalize k user amount) w =
    in_session-keeps (Served w.db) (finalize_price env k user amount) w (inl refl) (
      raise_if-keeps (Served w.db) (not (is_provider_or_admin user.role)) (http 403)
        (visible_job k user >>= λ job. map_error conflict_error (finalize_job_price env job amount))
        w (inl refl)
        (visible_job-Served k user w
          (λ job. map_error conflict_error (finalize_job_price env job amount))
          λ job.
            rw (map_error-world conflict_error (finalize_job_price env job amount) w)
              (finalize_job_price-Moves env job w amount)))
serve-Served env (Request.complete k user) w =
    in_session-keeps (Served w.db) (complete_request env k user) w (inl refl) (
      visible_job-Served k user w
        (λ job. map_error conflict_error (complete_job_with_payment env job))
        λ job.
          rw (map_error-world conflict_error (complete_job_with_payment env job) w)
            (complete_job_with_payment-Moves env job w))
serve-Served env (Request.cancel k user) w =
    in_session-keeps (Served w.db) (cancel_request k user) w (inl refl)
      (visible_job-Served k user w cancel_job λ job. cancel_job-Moves env job w)

-- The job under a key after a request: as it was, or moved along an edge.
abbrev Follows : ℕ → Job → Db → Type 0
Follows k job after =
    (job' : Job) × (job_by_id k after ≡ some job') × ((job' ≡ job) ⊎ Edge job.status job'.status)

same-Follows :
    (k : ℕ) (job : Job) (before after : Db)
    → job_by_id k before ≡ some job
    → after.jobs ≡ before.jobs
    → Follows k job after
same-Follows k job before after found same =
    (job, ap (find? (λ j. j.id == k)) same ∙ found, inl refl)

moved-Follows :
    (k : ℕ) (job moved moved' : Job) (before after : Db)
    → job_by_id k before ≡ some job
    → job_by_id moved.id before ≡ some moved
    → moved'.id ≡ moved.id
    → Edge moved.status moved'.status
    → after.jobs ≡ set_jobs moved' before.jobs
    → Follows k job after
moved-Follows k job moved moved' before after found stored same_id edge e =
    elim (Bool-cases (moved'.id == k)) [
      | inl this ↦
          let at_k : moved'.id ≡ k = omega (arith, ==_eq moved'.id k this) in
          let same : moved ≡ job = some_inj (
            sym (subst (λ n. job_by_id n before ≡ some moved) (sym same_id ∙ at_k) stored)
            ∙ found) in
          (
            moved',
            ap (find? (λ j. j.id == k)) e ∙ job_by_id-set_jobs k moved' before.jobs found at_k,
            inr (subst (λ (j : Job). Edge j.status moved'.status) same edge),
          )
      | inr other_job ↦ (
        job,
        ap (find? (λ j. j.id == k)) e
            ∙ job_by_id-set_jobs_ne k moved' before.jobs other_job
            ∙ found,
        inl refl,
      )
    ]

Served-Follows :
    (k : ℕ) (job : Job) (before after : Db)
    → job_by_id k before ≡ some job
    → Served before after
    → Follows k job after
Served-Follows k job before after found (inl same) = same-Follows k job before after found same
Served-Follows k job before after found (inr (moved, stored, inl same)) =
    same-Follows k job before after found same
Served-Follows k job before after found (inr (moved, stored, inr (moved', same_id, edge, e))) =
    moved-Follows k job moved moved' before after found stored same_id edge e

pub serve-Follows :
    (env : Env) (r : Request) (w : World) (k : ℕ) {job : Job}
    → job_by_id k w.db ≡ some job
    → Follows k job (serve env r w).db
serve-Follows env r w k {job} found =
    Served-Follows k job w.db (serve env r w).db found (serve-Served env r w)

pub data Reaches : JobStatus → JobStatus → Type 0 where
  here : {s : JobStatus} → Reaches s s
  then : {s t u : JobStatus} → Edge s t → Reaches t u → Reaches s u

Reaches-step :
    (k : ℕ) (job : Job) (db after : Db)
    → Follows k job db
    → ((mid : Job)
        → job_by_id k db ≡ some mid
        → (job' : Job) × (job_by_id k after ≡ some job') × Reaches mid.status job'.status)
    → (job' : Job) × (job_by_id k after ≡ some job') × Reaches job.status job'.status
Reaches-step k job db after (mid, found, inl same) later =
    let (job', e, path) = later mid found in
    (job', e, subst (λ (j : Job). Reaches j.status job'.status) same path)
Reaches-step k job db after (mid, found, inr edge) later =
    let (job', e, path) = later mid found in (job', e, Reaches.then edge path)

-- Whatever requests come to change a status, set the price, complete and cancel, by whichever users and
-- for whichever jobs, a stored job stays stored under them, and its status takes these steps only: from
-- searching to assigned, on to en_route, on to in_progress, from each of the last three to
-- payment_pending, and from any but completed and cancelled to one of these two.
pub serve_all-Reaches :
    (env : Env) (rs : List Request) (w : World) (k : ℕ) {job : Job}
    → job_by_id k w.db ≡ some job
    → (job' : Job) × (job_by_id k (serve_all env rs w).db ≡ some job')
      × Reaches job.status job'.status
unfolding serve_all
serve_all-Reaches env [] w k {job} found = (job, found, Reaches.here)
serve_all-Reaches env (r ∷ rs) w k {job} found =
    Reaches-step k job (serve env r w).db (serve_all env rs (serve env r w)).db
      (serve-Follows env r w k found) λ mid e. serve_all-Reaches env rs (serve env r w) k e

closed_no-Edge : {s t : JobStatus} → is_closed s ≡ true → Edge s t → ⊥
closed_no-Edge closed Edge.assign = cc
closed_no-Edge closed Edge.set_out = cc
closed_no-Edge closed Edge.arrive = cc
closed_no-Edge closed Edge.bill_assigned = cc
closed_no-Edge closed Edge.bill_en_route = cc
closed_no-Edge closed Edge.bill_done = cc
closed_no-Edge closed (Edge.complete h) = cc
closed_no-Edge closed (Edge.cancel h) = cc

closed-step :
    (k : ℕ) (job : Job) (db : Db)
    → is_closed job.status ≡ true
    → Follows k job db
    → job_by_id k db ≡ some job
closed-step k job db closed (job', found, inl same) =
    subst (λ j. job_by_id k db ≡ some j) same found
closed-step k job db closed (job', found, inr edge) = absurd (closed_no-Edge closed edge)

-- A completed or cancelled job is final: no sequence of these requests changes any column of it.
pub closed_stays :
    (env : Env) (rs : List Request) (w : World) (k : ℕ) {job : Job}
    → job_by_id k w.db ≡ some job
    → is_closed job.status ≡ true
    → job_by_id k (serve_all env rs w).db ≡ some job
unfolding serve_all
closed_stays env [] w k found closed = found
closed_stays env (r ∷ rs) w k {job} found closed =
    closed_stays env rs (serve env r w) k
      (closed-step k job (serve env r w).db closed (serve-Follows env r w k found)) closed
