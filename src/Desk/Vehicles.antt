-- ===== src/Desk/Vehicles.antt =====
-- backend/app/api/v1/vehicles.py, and attach_vehicle of api/v1/service.py.
use clutch_d_backend.Base.{
  ℕ, String, Bool, true, false, not, ◌&&◌, ◌||◌, Option, none, some, List, ◌∷◌, [], ◌++◌, ◌==◌,
  if◌then◌else◌, is_some_eq, find?, select, update, map,
}
use clutch_d_backend.Schema.{Db, User, Vehicle, Job}
use clutch_d_backend.Session.{
  Action, http, query, or_raise, raise_if, write, new_id, pure, ◌>>=◌, ◌>>◌,
}
use clutch_d_backend.Env.{Env}
use clutch_d_backend.Tables.{save_job}
use clutch_d_backend.Jobs.Routes.{visible_job}
use clutch_d_backend.Jobs.Response.{JobResponse, job_response_dict}

-- VehicleCreate
pub record VehicleCreate : Type 0 where
  pub make : String
  pub model : String
  pub year : Option ℕ
  pub license_plate : Option String
  pub color : Option String

-- What the client says of a field: nothing, null, or a value.
pub data Patch {ℓ} (A : Type ℓ) : Type ℓ where
  unset null : Patch A
  value : A → Patch A

-- VehicleUpdate, dumped without what is unset
pub record VehicleUpdate : Type 0 where
  pub make : Patch String
  pub model : Patch String
  pub year : Patch ℕ
  pub license_plate : Patch String
  pub color : Patch String

abbrev vehicle_of : ℕ → User → Db → Option Vehicle
vehicle_of k user db = find? (λ v. v.id == k && v.user_id == user.id) db.vehicles

unfoldable pub create_vehicle : VehicleCreate → User → Action Vehicle
create_vehicle form user = do
  k ← new_id
  let v : Vehicle = record {
    id = k;
    user_id = user.id;
    make = form.make;
    model = form.model;
    year = form.year;
    license_plate = form.license_plate;
    color = form.color;
  }
  write (λ db. record db { vehicles = db.vehicles ++ v ∷ [] })
  pure v

unfoldable pub read_vehicles : User → Db → List Vehicle
read_vehicles user db = select (λ v. v.user_id == user.id) db.vehicles

unfoldable pub read_vehicle : ℕ → User → Action Vehicle
read_vehicle k user = query (vehicle_of k user) >>= λ found. or_raise found (http 404)

abbrev is_null {ℓ} : {A : Type ℓ} → Patch A → Bool
is_null null = true
is_null _ = false

abbrev patch {ℓ} : {A : Type ℓ} → Patch A → A → A
patch (value a) old = a
patch _ old = old

abbrev patch_nullable {ℓ} : {A : Type ℓ} → Patch A → Option A → Option A
patch_nullable unset old = old
patch_nullable null old = none
patch_nullable (value a) old = some a

-- A null in a column that allows none is an IntegrityError, which nothing handles: a 500.
unfoldable pub update_vehicle : ℕ → VehicleUpdate → User → Action Vehicle
update_vehicle k form user = do
  found ← query (vehicle_of k user)
  v ← or_raise found (http 404)
  raise_if (is_null form.make || is_null form.model) (http 500)
  let v' : Vehicle = record v {
    make = patch form.make v.make;
    model = patch form.model v.model;
    year = patch_nullable form.year v.year;
    license_plate = patch_nullable form.license_plate v.license_plate;
    color = patch_nullable form.color v.color;
  }
  write (λ db. record db { vehicles = update (λ r. r.id == v.id) (λ _. v') db.vehicles })
  pure v'

-- The foreign key of a job is set to NULL.
abbrev without_vehicle : ℕ → Job → Job
without_vehicle k j = if is_some_eq j.vehicle_id k then record j { vehicle_id = none } else j

unfoldable pub delete_vehicle : ℕ → User → Action (Unit {0})
delete_vehicle k user = do
  found ← query (vehicle_of k user)
  v ← or_raise found (http 404)
  write (λ db. record db {
    vehicles = select (λ r. not (r.id == v.id)) db.vehicles;
    jobs = map (without_vehicle v.id) db.jobs;
  })

unfoldable pub attach_vehicle : Env → (job vehicle : ℕ) → User → Action JobResponse
attach_vehicle env job_id vehicle_id user = do
  job ← visible_job job_id user
  found ← query (vehicle_of vehicle_id user)
  v ← or_raise found (http 404)
  let job' : Job = record job { vehicle_id = some v.id }
  save_job job'
  pure (job_response_dict env job' none)
