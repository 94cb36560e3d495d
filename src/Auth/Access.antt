-- ===== src/Auth/Access.antt =====
-- Who a request is: backend/app/api/deps.py, the routes of backend/app/api/v1/token.py and `logout` of
-- backend/app/api/v1/auth.py, and _authenticate_ws of backend/app/main.py.
use clutch_d_backend.Base.{
  ℕ, String, Bool, true, false, not, ◌&&◌, Option, none, some, List, ◌==◌, str_eq, if◌then◌else◌,
  exists, find?,
}
use clutch_d_backend.Schema.{Db, User, Role}
use clutch_d_backend.Session.{Action, World, http, pure, raise_if, or_raise, query, ◌>>=◌, ◌>>◌}
use clutch_d_backend.Auth.Tokens.{
  Subject, TokenType, Claims, AuthEnv, decode_token, is_token_blacklisted, blacklist_token,
  create_refresh_token, create_access_token,
}

-- Where a request may carry a token.
pub record AuthRequest : Type 0 where
  -- what FastAPI's HTTPBearer takes from the Authorization header
  pub credentials : Option String
  -- that header after its prefix "Bearer ", if it has that prefix
  pub bearer : Option String
  pub access_cookie : Option String
  pub refresh_cookie : Option String
  pub x_refresh_token : Option String

-- A text that Python takes as true: `if not token` is also the case of the empty one.
abbrev pub non_empty : Option String → Option String
non_empty none = none
non_empty (some t) = if str_eq t "" then none else some t

-- `a or b`, and `b` after `if not a`
abbrev pub or_token : Option String → Option String → Option String
or_token none b = b
or_token (some t) b = some t

-- `select(User).where(User.id == uid, User.is_active.is_(True))`
abbrev pub active_user : ℕ → Db → Option User
active_user k db = find? (λ u. u.id == k && u.is_active) db.users

-- `"sub" not in payload` and `UUID(payload["sub"])`
abbrev pub subject_id : Subject → Option ℕ
subject_id Subject.missing = none
subject_id Subject.malformed = none
subject_id (Subject.of_user k) = some k

-- The tokens that `logout` and `refresh_token` look at.
abbrev pub access_token_of : AuthRequest → Option String
access_token_of req = or_token (non_empty req.bearer) (non_empty req.access_cookie)

abbrev pub refresh_token_of : AuthRequest → Option String
refresh_token_of req =
    or_token (or_token (non_empty req.x_refresh_token) (non_empty req.refresh_cookie))
      (non_empty req.bearer)

abbrev pub credentials_or : Option String → Option String → Option String
credentials_or none cookie = cookie
credentials_or (some t) cookie = some t

module _ (auth : AuthEnv) where
  unfoldable pub is_revoked : Option ℕ → World → Bool
  unfolding is_token_blacklisted
  is_revoked none w = false
  is_revoked (some jti) w = is_token_blacklisted auth jti w.redis

  abbrev pub user_of_subject : Option ℕ → World → Option User
  user_of_subject none w = none
  user_of_subject (some k) w = active_user k w.db

  abbrev pub user_of_claims : Option Claims → World → Option User
  user_of_claims none w = none
  user_of_claims (some c) w =
      if is_revoked c.jti w then none else user_of_subject (subject_id c.sub) w

  -- The checks that HTTP requests and WebSocket connections share.
  unfoldable pub user_of_token : Option String → World → Option User
  unfolding is_revoked
  user_of_token none w = none
  user_of_token (some t) w = user_of_claims (decode_token auth t TokenType.access) w

  unfoldable pub get_current_user_optional : AuthRequest → World → Option User
  unfolding user_of_token
  get_current_user_optional req w =
      user_of_token (non_empty (credentials_or req.credentials req.access_cookie)) w

  unfoldable pub get_current_user : AuthRequest → Action User
  unfolding get_current_user_optional
  get_current_user req w = or_raise (get_current_user_optional req w) (http 401) w

  -- `protocol` is the part of the Sec-WebSocket-Protocol header before its first comma, stripped. Where
  -- this is none the socket is closed with 4401.
  unfoldable pub authenticate_ws : (protocol : Option String) → World → Option User
  unfolding user_of_token
  authenticate_ws protocol w = user_of_token (non_empty protocol) w

  abbrev pub blacklist_id : Option ℕ → Action (Unit {0})
  blacklist_id none = pure tt
  blacklist_id (some jti) = blacklist_token auth jti

  abbrev pub blacklist_claims : Option Claims → Action (Unit {0})
  blacklist_claims none = pure tt
  blacklist_claims (some c) = blacklist_id c.jti

  abbrev pub blacklist_decoded : Option String → TokenType → Action (Unit {0})
  blacklist_decoded none expected = pure tt
  blacklist_decoded (some t) expected = blacklist_claims (decode_token auth t expected)

  unfoldable pub logout : AuthRequest → Action (Unit {0})
  unfolding blacklist_token
  logout req = do
    blacklist_decoded (access_token_of req) TokenType.access
    blacklist_decoded (non_empty req.refresh_cookie) TokenType.refresh

  -- The part before the rotation: the claims of the token, and the user.
  unfoldable pub user_of_refresh : AuthRequest → Action (Claims × User)
  user_of_refresh req = do
    token ← or_raise (refresh_token_of req) (http 401)
    claims ← or_raise (decode_token auth token TokenType.refresh) (http 401)
    uid ← or_raise (subject_id claims.sub) (http 401)
    found ← query (active_user uid)
    user ← or_raise found (http 401)
    pure (claims, user)

  -- The new refresh token, and the new access token.
  abbrev pub new_tokens : User → Action (String × String)
  new_tokens user = do
    fresh ← create_refresh_token auth user.id
    access ← create_access_token auth user.id user.role
    pure (fresh, access)

  unfoldable pub rotate : Claims → User → Action (String × String)
  unfolding blacklist_token create_refresh_token create_access_token
  rotate claims user = blacklist_claims (some claims) >> new_tokens user

  unfoldable pub refresh_token : AuthRequest → Action (String × String)
  unfolding user_of_refresh rotate
  refresh_token req = do (claims, user) ← user_of_refresh req; rotate claims user

-- UserRole(user.role) is a ValueError for a text that is no role.
abbrev is_role : Role → Bool
is_role Role.other = false
is_role _ = true

abbrev pub role_eq : Role → Role → Bool
role_eq Role.customer Role.customer = true
role_eq Role.mechanic Role.mechanic = true
role_eq Role.garage Role.garage = true
role_eq Role.seller Role.seller = true
role_eq Role.admin Role.admin = true
role_eq _ _ = false

-- `checker` of require_roles
unfoldable pub require_roles : List Role → User → Action User
require_roles roles user = do
  raise_if (not (is_role user.role)) (http 403)
  raise_if (not (exists (role_eq user.role) roles) && not user.is_superuser) (http 403)
  pure user
