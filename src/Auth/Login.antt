-- ===== src/Auth/Login.antt =====
-- Passwords: `login` of backend/app/services/auth_service.py, and the routes for logging in and for a
-- forgotten password of backend/app/api/v1/auth.py.
use clutch_d_backend.Base.{
  ℕ, String, Bool, true, false, not, ◌&&◌, ◌||◌, Option, none, some, List, ◌==◌, str_eq,
  if◌then◌else◌, leb, ltb, find?, update,
}
use clutch_d_backend.Schema.{Db, User}
use clutch_d_backend.Redis.{
  Redis, CounterKind, count_of, count_up, delete_count, code_of, set_code, delete_code,
}
use clutch_d_backend.Session.{
  Action, Error, ok, err, http, pure, raise, raise_if, or_raise, query, write, ◌>>=◌, ◌>>◌,
}
use clutch_d_backend.Auth.Tokens.{AuthEnv, create_refresh_token, create_access_token}

-- passlib's CryptContext, and the methods of `str` that the routes call on an email.
pub record Passwords : Type 0 where
  pub hash : String → String
  pub verify : (plain hashed : String) → Bool
  pub lower : String → String
  pub strip : String → String

-- users.email is unique.
abbrev pub user_by_email : String → Db → Option User
user_by_email email db = find? (λ u. str_eq u.email email) db.users

abbrev pub set_users : User → List User → List User
set_users user = update (λ u. u.id == user.id) (λ _. user)

abbrev pub save_user : User → Action (Unit {0})
save_user user = write (λ db. record db { users = set_users user db.users })

-- A change to what Redis holds; nothing if there is no Redis.
abbrev pub on_redis : Bool → (Redis → Redis) → Action (Unit {0})
on_redis up f w = (ok tt, if up then record w { redis = f w.redis } else w)

abbrev pub ask_redis {ℓ} : {A : Type ℓ} → (Redis → A) → Action A
ask_redis f w = (ok (f w.redis), w)

-- Whether it is an AuthError of `login`: the other exception is _check_secret's.
abbrev pub is_auth_error : Error → Bool
is_auth_error (http code) = code == 401 || code == 403 || code == 404
is_auth_error _ = false

-- `stored_code and stored_code == body.code`
abbrev pub is_code : String → Option String → Bool
is_code code none = false
is_code code (some stored) = not (str_eq stored "") && str_eq stored code

module _ (auth : AuthEnv) (passwords : Passwords) where
  open auth use {now, redis_up}

  -- The access token and the user's id; the third value, what the frontend shows of the user, is not
  -- modelled.
  unfoldable pub login : (email password : String) → Action (String × ℕ)
  unfolding create_access_token
  login email password = do
    found ← query (user_by_email (passwords.lower email))
    user ← or_raise found (http 404)
    raise_if (not (passwords.verify password user.password_hash)) (http 401)
    raise_if (not user.is_active) (http 403)
    token ← create_access_token auth user.id user.role
    pure (token, user.id)

  -- `except AuthError`
  abbrev pub count_failure : String → Error → Action (String × ℕ)
  count_failure email e = do
    on_redis (redis_up && is_auth_error e) (count_up now 900 CounterKind.login_fails email)
    raise e

  abbrev pub try_login : (email password : String) → Action (String × ℕ)
  try_login email password w =
      let (r, after) = login email password w in
      elim r [ ok found ↦ (ok found, after) | err e ↦ count_failure email e after ]

  -- The access and the refresh token.
  unfoldable pub login_route : (email password : String) → Action (String × String)
  unfolding login create_refresh_token
  login_route address password = do
    let email = passwords.strip (passwords.lower address)
    fails ← ask_redis (count_of now CounterKind.login_fails email)
    raise_if (redis_up && leb 5 fails) (http 429)
    (token, user) ← try_login email password
    on_redis redis_up (delete_count CounterKind.login_fails email)
    fresh ← create_refresh_token auth user
    pure (token, fresh)

  abbrev reset_for : String → String → Option User → Action (Unit {0})
  reset_for email code none = pure tt
  reset_for email code (some user) = do
    on_redis redis_up (set_code now 600 email code)
    on_redis redis_up (delete_count CounterKind.reset_attempts email)

  -- `code` is what secrets.token_urlsafe draws. How the code is delivered is not modelled.
  unfoldable pub forgot_password_request : (email code : String) → Action (Unit {0})
  forgot_password_request address code = do
    let email = passwords.lower address
    count ← ask_redis (count_of now CounterKind.reset_rate email)
    raise_if (redis_up && leb 3 count) (http 429)
    on_redis redis_up (count_up now 3600 CounterKind.reset_rate email)
    found ← query (user_by_email email)
    reset_for email code found

  -- The branch of a code that is not the stored one.
  abbrev pub wrong_code : String → (attempts : ℕ) → Option String → Action (Unit {0})
  wrong_code email attempts none = raise (http 400)
  wrong_code email attempts (some stored) = do
    on_redis true (count_up now 3600 CounterKind.reset_attempts email)
    -- `remaining > 0`
    raise_if (ltb attempts 4) (http 400)
    on_redis true (delete_code email)
    raise (http 429)

  abbrev pub change_password : (email password : String) → Action (Unit {0})
  change_password email password = do
    found ← query (user_by_email email)
    user ← or_raise found (http 404)
    save_user (record user { password_hash = passwords.hash password })
    on_redis redis_up (delete_code email)
    on_redis redis_up (delete_count CounterKind.reset_attempts email)
    on_redis redis_up (delete_count CounterKind.reset_rate email)

  abbrev pub if_up : Option String → Option String
  if_up o = if redis_up then o else none

  unfoldable pub forgot_password_reset : (email code password : String) → Action (Unit {0})
  forgot_password_reset address code password = do
    let email = passwords.lower address
    attempts ← ask_redis (count_of now CounterKind.reset_attempts email)
    raise_if (redis_up && leb 5 attempts) (http 429)
    stored ← ask_redis (code_of now email)
    elim (is_code code (if_up stored)) [
      | true ↦ change_password email password
      | false ↦ wrong_code email attempts (if_up stored)
    ]
