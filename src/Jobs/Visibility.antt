-- ===== src/Jobs/Visibility.antt =====
-- get_job_for_user against a description of who may see a job.
use clutch_d_backend.Base.{
  ℕ, ◌≡◌, ◌⊎◌, inl, inr, refl, true, Option, none, some, arith, Bool-cases, ◌||◌, ◌==◌,
}
use clutch_d_backend.Schema.{Db, User, Mechanic, Garage, Job, Role}
use clutch_d_backend.Tables.{job_by_id, mechanic_by_user, garage_by_user}
use clutch_d_backend.Jobs.Access.{
  get_job_for_user, by_role, visible, is_admin, assigned_mechanic, assigned_garage,
}

abbrev IsAssignedMechanic : User → Job → Db → Type 0
IsAssignedMechanic user job db =
    (m : Mechanic) × (mechanic_by_user user.id db ≡ some m) × (job.assigned_mechanic_id ≡ some m.id)

abbrev IsAssignedGarage : User → Job → Db → Type 0
IsAssignedGarage user job db =
    (g : Garage) × (garage_by_user user.id db ≡ some g) × (job.assigned_garage_id ≡ some g.id)

-- An admin or superuser, the customer, or the provider that the job is assigned to.
abbrev pub MaySee : User → Job → Db → Type 0
MaySee user job db =
    (user.role ≡ Role.admin)
    ⊎ (user.is_superuser ≡ true)
    ⊎ (job.user_id ≡ user.id)
    ⊎ ((user.role ≡ Role.mechanic) × IsAssignedMechanic user job db)
    ⊎ ((user.role ≡ Role.garage) × IsAssignedGarage user job db)

mechanic_found :
    (job : Job) (o : Option Mechanic)
    → assigned_mechanic job o ≡ true
    → (m : Mechanic) × (o ≡ some m) × (job.assigned_mechanic_id ≡ some m.id)
mechanic_found job none h = cc
mechanic_found job (some m) h = (m, refl, ground arith)

garage_found :
    (job : Job) (o : Option Garage)
    → assigned_garage job o ≡ true
    → (g : Garage) × (o ≡ some g) × (job.assigned_garage_id ≡ some g.id)
garage_found job none h = cc
garage_found job (some g) h = (g, refl, ground arith)

abbrev IsProvider : Role → User → Job → Db → Type 0
IsProvider role user job db =
    ((role ≡ Role.mechanic) × IsAssignedMechanic user job db)
    ⊎ ((role ≡ Role.garage) × IsAssignedGarage user job db)

by_role-IsProvider :
    (role : Role) (user : User) (job : Job) (db : Db)
    → by_role role user job db ≡ true
    → IsProvider role user job db
unfolding by_role
by_role-IsProvider Role.mechanic user job db h =
    inl (refl, mechanic_found job (mechanic_by_user user.id db) h)
by_role-IsProvider Role.garage user job db h =
    inr (refl, garage_found job (garage_by_user user.id db) h)
by_role-IsProvider _ user job db h = cc

pub visible-MaySee :
    (user : User) (job : Job) (db : Db) → visible user job db ≡ true → MaySee user job db
visible-MaySee user job db h = elim (Bool-cases (is_admin user.role || user.is_superuser)) [
  | inl power ↦ ground arith
  | inr plain ↦ elim (Bool-cases (job.user_id == user.id)) [
    | inl owner ↦ inr (inr (inl (ground arith)))
    | inr stranger ↦ inr (inr (inr (by_role-IsProvider user.role user job db (ground arith))))
  ]
]

-- The function finds exactly the stored job under the key, for exactly the users that may see it.
pub get_job_for_user_iff :
    (k : ℕ) (user : User) (job : Job) (db : Db)
    → (get_job_for_user k user db ≡ some job → (job_by_id k db ≡ some job) × MaySee user job db)
      × ((job_by_id k db ≡ some job) × MaySee user job db → get_job_for_user k user db ≡ some job)
unfolding get_job_for_user
get_job_for_user_iff k user job db =
    (λ h. (ground arith, visible-MaySee user job db (ground arith)), λ (found, may). ground arith)
