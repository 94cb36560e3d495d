-- ===== src/Jobs/Autoassigned.antt =====
-- Whom assign_job_auto of backend/app/services/job_service.py assigns a job to.
use clutch_d_backend.Base.{◌≡◌, ◌⊎◌, Option, none, some, List, [], find?, ◌&&◌, ◌==◌}
use clutch_d_backend.Schema.{Db, Job, JobStatus, RequestType, ProviderType, status_eq}
use clutch_d_backend.Env.{Env}
use clutch_d_backend.Matching.Rank.{Ranked}
use clutch_d_backend.Matching.Nearest.{Server, nearest_mechanics, nearest_garages}
use clutch_d_backend.Matching.Found.{MechanicFound, GarageFound}
use clutch_d_backend.Jobs.Auto.{Choice, first}

module _ (env : Env) (server : Server) (db : Db) (job : Job) where
  -- A mechanic that the search with the job's tag returns, or the one without.
  abbrev pub IsMechanic : Ranked → Type 0
  IsMechanic r =
      MechanicFound env db server job.customer_lat job.customer_lon 10 (some job.issue_tag) r
      ⊎ MechanicFound env db server job.customer_lat job.customer_lon 10 none r

  abbrev pub IsGarage : Ranked → Type 0
  IsGarage r =
      GarageFound env db server job.customer_lat job.customer_lon 10 (some job.issue_tag) r
      ⊎ GarageFound env db server job.customer_lat job.customer_lon 10 none r

  -- The choice is eligible, and of a type that the request allows.
  abbrev pub IsFit : RequestType → Choice → Type 0
  IsFit request (ProviderType.mechanic, r) =
      IsMechanic r × ((request ≡ RequestType.mechanic) ⊎ (request ≡ RequestType.auto))
  IsFit request (ProviderType.garage, r) =
      IsGarage r × ((request ≡ RequestType.garage) ⊎ (request ≡ RequestType.auto))

  -- No search returns anybody of the kind that the request asks for, with the tag or without.
  abbrev NoMechanic : Type 0
  NoMechanic =
      (nearest_mechanics env server db job.customer_lat job.customer_lon 10 (some job.issue_tag)
        ≡ [])
      × (nearest_mechanics env server db job.customer_lat job.customer_lon 10 none ≡ [])

  abbrev NoGarage : Type 0
  NoGarage =
      (nearest_garages env server db job.customer_lat job.customer_lon 10 (some job.issue_tag) ≡ [])
      × (nearest_garages env server db job.customer_lat job.customer_lon 10 none ≡ [])

  abbrev pub FindsNobody : RequestType → Type 0
  FindsNobody RequestType.mechanic = NoMechanic
  FindsNobody RequestType.garage = NoGarage
  FindsNobody RequestType.auto = NoMechanic × NoGarage

-- The row of the job, if it is searching.
abbrev pub still_searching : Job → Db → Option Job
still_searching job db =
    find? (λ j. j.id == job.id && status_eq j.status JobStatus.searching) db.jobs

-- The job as assigned to the choice alone, with all else as it was.
abbrev pub assigned_to : Choice → Job → Job
assigned_to (type, r) job = record job {
  status = JobStatus.assigned;
  assigned_type = some type;
  assigned_mechanic_id = elim type [
    | ProviderType.mechanic ↦ some r.id
    | ProviderType.garage ↦ none
  ];
  assigned_garage_id = elim type [ ProviderType.mechanic ↦ none | ProviderType.garage ↦ some r.id ];
}

abbrev OfFirst : (Ranked → Type 0) → List Ranked → Type 0
OfFirst P rs = (r : Ranked) → first rs ≡ some r → P r
