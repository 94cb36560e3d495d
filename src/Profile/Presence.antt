-- ===== src/Profile/Presence.antt =====
-- Where a provider is, and whether they take jobs: `update_provider_location` and `toggle_availability`
-- of backend/app/api/v1/providers.py.
use clutch_d_backend.Base.{Bool, ◌&&◌, not, List, is_some_eq, select}
use clutch_d_backend.Schema.{Db, Float, User, Role, Garage, Job}
use clutch_d_backend.Session.{Action, http, raise, raise_if, or_raise, query, pure, ◌>>=◌, ◌>>◌}
use clutch_d_backend.Tables.{mechanic_by_user, garage_by_user}
use clutch_d_backend.Chat.Socket.{is_mechanic, jobs_under_way, is_moving, send_locations}
use clutch_d_backend.Admin.Accounts.{save_mechanic, save_garage}

abbrev garage_jobs : Garage → Db → List Job
garage_jobs g db = select (λ j. is_some_eq j.assigned_garage_id g.id && is_moving j.status) db.jobs

abbrev move_mechanic : Float → Float → User → Action (Unit {0})
move_mechanic lat lon user = do
  found ← query (mechanic_by_user user.id)
  m ← or_raise found (http 404)
  save_mechanic (record m { lat = lat; lon = lon })
  jobs ← query (jobs_under_way m)
  send_locations jobs lat lon

abbrev move_garage : Float → Float → User → Action (Unit {0})
move_garage lat lon user = do
  found ← query (garage_by_user user.id)
  g ← or_raise found (http 404)
  save_garage (record g { lat = lat; lon = lon })
  jobs ← query (garage_jobs g)
  send_locations jobs lat lon

abbrev move_as : Role → Float → Float → User → Action (Unit {0})
move_as Role.mechanic lat lon user = move_mechanic lat lon user
move_as Role.garage lat lon user = move_garage lat lon user
move_as _ lat lon user = raise (http 403)

unfoldable pub update_provider_location : Float → Float → User → Action (Unit {0})
update_provider_location lat lon user = move_as user.role lat lon user

unfoldable pub toggle_availability : Bool → User → Action Bool
toggle_availability available user = do
  raise_if (not (is_mechanic user.role)) (http 403)
  found ← query (mechanic_by_user user.id)
  m ← or_raise found (http 404)
  save_mechanic (record m { available = available })
  pure available
