-- ===== src/Jobs/Access.antt =====
-- get_job_for_user of job_service.py: who may see a job.
use clutch_d_backend.Base.{
  ℕ, Bool, true, false, ◌||◌, Option, none, some, ◌==◌, if◌then◌else◌, is_some_eq,
}
use clutch_d_backend.Schema.{Db, User, Mechanic, Garage, Job, Role}
use clutch_d_backend.Tables.{job_by_id, mechanic_by_user, garage_by_user}

abbrev pub is_admin : Role → Bool
is_admin Role.admin = true
is_admin _ = false

abbrev pub is_customer : Role → Bool
is_customer Role.customer = true
is_customer _ = false

-- `mech and job.assigned_mechanic_id == mech.id`
abbrev pub assigned_mechanic : Job → Option Mechanic → Bool
assigned_mechanic job none = false
assigned_mechanic job (some m) = is_some_eq job.assigned_mechanic_id m.id

abbrev pub assigned_garage : Job → Option Garage → Bool
assigned_garage job none = false
assigned_garage job (some g) = is_some_eq job.assigned_garage_id g.id

-- The two role tests at the end of the function.
unfoldable pub by_role : Role → User → Job → Db → Bool
by_role Role.mechanic user job db = assigned_mechanic job (mechanic_by_user user.id db)
by_role Role.garage user job db = assigned_garage job (garage_by_user user.id db)
by_role _ user job db = false

abbrev pub visible : User → Job → Db → Bool
visible user job db =
    if is_admin user.role || user.is_superuser
    then true
    else if job.user_id == user.id
    then true
    else by_role user.role user job db

abbrev if_visible : User → Db → Option Job → Option Job
if_visible user db none = none
if_visible user db (some job) = if visible user job db then some job else none

unfoldable pub get_job_for_user : ℕ → User → Db → Option Job
unfolding by_role
get_job_for_user job_id user db = if_visible user db (job_by_id job_id db)
