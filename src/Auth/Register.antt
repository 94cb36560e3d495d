-- ===== src/Auth/Register.antt =====
-- Registration: `register_customer`, `register_mechanic` and `register_garage` of
-- backend/app/services/auth_service.py, and their routes of backend/app/api/v1/auth.py. Columns that
-- nothing modelled reads (phone, address, experience, opening hours, the urls of photos) are left out.
use clutch_d_backend.Base.{
  ℕ, String, Bool, true, false, Option, none, some, List, [], ◌∷◌, ◌++◌, is_some,
}
use clutch_d_backend.Schema.{Float, User, Role, Mechanic, Garage, KycStatus}
use clutch_d_backend.Session.{Action, http, raise_if, query, write, new_id, pure, ◌>>=◌, ◌>>◌}
use clutch_d_backend.Env.{Env}
use clutch_d_backend.Auth.Tokens.{AuthEnv, create_access_token, create_refresh_token}
use clutch_d_backend.Auth.Login.{Passwords, user_by_email}

-- What the forms share; `has_photos` tells whether one of the two urls is given.
pub record Registration : Type 0 where
  pub email : String
  pub password : String
  pub name : String
  -- expertise, or services
  pub tags : List String
  pub latitude : Option Float
  pub longitude : Option Float
  pub has_photos : Bool

abbrev float_or : Option Float → Float → Float
float_or none f = f
float_or (some g) f = g

abbrev first_kyc : Bool → KycStatus
first_kyc true = KycStatus.submitted
first_kyc false = KycStatus.pending

module _ (auth : AuthEnv) (passwords : Passwords) (env : Env) (auto_verify : Bool) where
  open auth use {now}

  -- _ensure_email_free
  unfoldable pub ensure_email_free : String → Action (Unit {0})
  ensure_email_free email = do
    found ← query (user_by_email (passwords.lower email))
    raise_if (is_some found) (http 409)

  abbrev pub new_user : ℕ → Role → Registration → User
  new_user k role form = record {
    id = k;
    email = passwords.lower form.email;
    password_hash = passwords.hash form.password;
    role = role;
    is_active = true;
    is_superuser = false;
    created_at = now;
  }

  abbrev add_user : Role → Registration → Action User
  add_user role form = do
    ensure_email_free form.email
    k ← new_id
    write (λ db. record db { users = db.users ++ new_user k role form ∷ [] })
    pure (new_user k role form)

  abbrev pub new_mechanic : ℕ → ℕ → Registration → Mechanic
  new_mechanic k user form = record {
    id = k;
    user_id = user;
    full_name = form.name;
    expertise = form.tags;
    lat = float_or form.latitude env.settings.default_map_lat;
    lon = float_or form.longitude env.settings.default_map_lon;
    rating = env.ops.lit 0 1;
    verified = auto_verify;
    available = true;
    upi_id = none;
    penalized = false;
    penalty_amount = none;
    kyc_status = first_kyc form.has_photos;
  }

  abbrev pub new_garage : ℕ → ℕ → Registration → Garage
  new_garage k user form = record {
    id = k;
    user_id = user;
    garage_name = form.name;
    services = form.tags;
    lat = float_or form.latitude env.settings.default_map_lat;
    lon = float_or form.longitude env.settings.default_map_lon;
    rating = env.ops.lit 0 1;
    verified = auto_verify;
    upi_id = none;
    penalized = false;
    penalty_amount = none;
    kyc_status = first_kyc form.has_photos;
  }

  -- The access token and the user's id, as of `login`.
  unfoldable pub register_customer : Registration → Action (String × ℕ)
  unfolding ensure_email_free create_access_token
  register_customer form = do
    user ← add_user Role.customer form
    token ← create_access_token auth user.id user.role
    pure (token, user.id)

  unfoldable pub register_mechanic : Registration → Action (String × ℕ)
  unfolding ensure_email_free create_access_token
  register_mechanic form = do
    user ← add_user Role.mechanic form
    k ← new_id
    write (λ db. record db { mechanics = db.mechanics ++ new_mechanic k user.id form ∷ [] })
    token ← create_access_token auth user.id user.role
    pure (token, user.id)

  unfoldable pub register_garage : Registration → Action (String × ℕ)
  unfolding ensure_email_free create_access_token
  register_garage form = do
    user ← add_user Role.garage form
    k ← new_id
    write (λ db. record db { garages = db.garages ++ new_garage k user.id form ∷ [] })
    token ← create_access_token auth user.id user.role
    pure (token, user.id)

  -- Which of the three routes it is; one for a customer where the role is no provider's.
  abbrev register_as : Role → Registration → Action (String × ℕ)
  register_as Role.mechanic form = register_mechanic form
  register_as Role.garage form = register_garage form
  register_as _ form = register_customer form

  -- The routes: an AuthError keeps its code. The access and the refresh token.
  unfoldable pub register_route : Role → Registration → Action (String × String)
  unfolding register_customer register_mechanic register_garage create_refresh_token
  register_route role form = do
    (token, user) ← register_as role form
    fresh ← create_refresh_token auth user
    pure (token, fresh)
