-- ===== src/Jobs/Auto.antt =====
-- assign_job_auto of backend/app/services/job_service.py, which assigns a job to the best provider.
use clutch_d_backend.Base.{
  Bool, not, ◌&&◌, Option, none, some, List, [], ◌∷◌, ◌==◌, if◌then◌else◌, find?,
}
use clutch_d_backend.Schema.{
  Db, Mechanic, Garage, Job, JobStatus, RequestType, ProviderType, status_eq,
}
use clutch_d_backend.Session.{Action, Message, Summary, pure, query, send, ◌>>=◌, ◌>>◌}
use clutch_d_backend.Env.{Env}
use clutch_d_backend.Tables.{mechanic_by_id, garage_by_id, save_job}
use clutch_d_backend.Matching.Rank.{Ranked}
use clutch_d_backend.Matching.Nearest.{Server, nearest_mechanics, nearest_garages}

-- `choice`: the type of the provider, and the provider as the search ranked it.
abbrev pub Choice : Type 0
Choice = ProviderType × Ranked

abbrev pub first : List Ranked → Option Ranked
first [] = none
first (r ∷ rs) = some r

abbrev pub chosen_as : ProviderType → Option Ranked → Option Choice
chosen_as type none = none
chosen_as type (some r) = some (type, r)

module _ (env : Env) (server : Server) where
  -- `a >= b`, of scores that are numbers
  abbrev pub at_least : Ranked → Ranked → Bool
  at_least a b = not (env.ops.lt a.score b.score)

  abbrev pub best_of : Option Ranked → Option Ranked → Option Choice
  best_of (some m) (some g) =
      if at_least m g then some (ProviderType.mechanic, m) else some (ProviderType.garage, g)
  best_of (some m) none = some (ProviderType.mechanic, m)
  best_of none (some g) = some (ProviderType.garage, g)
  best_of none none = none

  abbrev pub choice_of : RequestType → Option Ranked → Option Ranked → Option Choice
  choice_of RequestType.mechanic m g = chosen_as ProviderType.mechanic m
  choice_of RequestType.garage m g = chosen_as ProviderType.garage g
  choice_of RequestType.auto m g = best_of m g

  -- `if not mechs: mechs = …` without the tag
  abbrev pub or_any : List Ranked → List Ranked → List Ranked
  or_any [] others = others
  or_any (r ∷ rs) others = r ∷ rs

  unfoldable pub mechanics_near : Job → Db → List Ranked
  mechanics_near job db =
      or_any
        (nearest_mechanics env server db job.customer_lat job.customer_lon 10 (some job.issue_tag))
        (nearest_mechanics env server db job.customer_lat job.customer_lon 10 none)

  unfoldable pub garages_near : Job → Db → List Ranked
  garages_near job db =
      or_any
        (nearest_garages env server db job.customer_lat job.customer_lon 10 (some job.issue_tag))
        (nearest_garages env server db job.customer_lat job.customer_lon 10 none)

  unfoldable pub choose : Job → Db → Option Choice
  unfolding mechanics_near garages_near
  choose job db =
      choice_of job.request_type (first (mechanics_near job db)) (first (garages_near job db))

  abbrev pub with_choice : Choice → Job → Job
  with_choice (ProviderType.mechanic, r) job = record job {
    assigned_type = some ProviderType.mechanic;
    status = JobStatus.assigned;
    assigned_mechanic_id = some r.id;
    assigned_garage_id = none;
  }
  with_choice (ProviderType.garage, r) job = record job {
    assigned_type = some ProviderType.garage;
    status = JobStatus.assigned;
    assigned_garage_id = some r.id;
    assigned_mechanic_id = none;
  }

  abbrev to_mechanic : Job → Option Mechanic → Action (Unit {0})
  to_mechanic job none = pure tt
  to_mechanic job (some m) = send (Message.location_update job.user_id job.id m.lat m.lon)

  abbrev to_garage : Job → Option Garage → Action (Unit {0})
  to_garage job none = pure tt
  to_garage job (some g) = send (Message.location_update job.user_id job.id g.lat g.lon)

  abbrev push_place : Choice → Job → Action (Unit {0})
  push_place (ProviderType.mechanic, r) job = query (mechanic_by_id r.id) >>= to_mechanic job
  push_place (ProviderType.garage, r) job = query (garage_by_id r.id) >>= to_garage job

  abbrev pub summary_of : Ranked → Summary
  summary_of r = record {
    id = r.id;
    name = r.name;
    rating = r.rating;
    distance = some r.distance_m;
  }

  -- Without a choice the status is written as it was.
  unfoldable pub settle_choice : Option Choice → Job → Action Job
  settle_choice none job =
      save_job (record job { status = JobStatus.searching })
      >> pure (record job { status = JobStatus.searching })
  settle_choice (some choice) job = do
    let job' = with_choice choice job
    push_place choice job'
    send (
        Message.status_update job.user_id job.id JobStatus.assigned (some (summary_of choice.1))
          none)
    save_job job'
    pure job'

  -- `select(Job).where(Job.id == job.id, Job.status == "searching").with_for_update()`
  abbrev pub locked : Job → Db → Option Job
  locked job db = find? (λ j. j.id == job.id && status_eq j.status JobStatus.searching) db.jobs

  abbrev on_locked : Job → Option Job → Action Job
  on_locked job none = pure job
  on_locked job (some j) = query (choose j) >>= λ choice. settle_choice choice j

  unfoldable pub assign_job_auto : Job → Action Job
  unfolding choose settle_choice
  assign_job_auto job = query (locked job) >>= on_locked job
