-- ===== src/Auth/Tokens.antt =====
-- The tokens of backend/app/core/security.py. Encoding, decoding and digests are jose's and hashlib's.
use clutch_d_backend.Base.{
  ℕ, ◌+◌, ◌*◌, String, Bool, true, false, not, ◌&&◌, ◌||◌, Option, none, some, List, [], ◌∷◌, ◌==◌,
  str_eq, if◌then◌else◌, exists, map,
}
use clutch_d_backend.Schema.{Role}
use clutch_d_backend.Session.{Action, ok, http, pure, raise_if, new_id, ◌>>=◌, ◌>>◌}
use clutch_d_backend.Redis.{Redis, revoke, revoked_at}

-- claims["sub"]: not there, no UUID, or the id of a user
pub data Subject : Type 0 where
  missing malformed : Subject
  of_user : ℕ → Subject

pub data TokenType : Type 0 where
  access refresh other : TokenType

abbrev pub type_eq : TokenType → TokenType → Bool
type_eq TokenType.access TokenType.access = true
type_eq TokenType.refresh TokenType.refresh = true
type_eq TokenType.other TokenType.other = true
type_eq _ _ = false

pub record Claims : Type 0 where
  pub sub : Subject
  pub exp : ℕ
  pub iss : String
  pub aud : String
  pub type : TokenType
  -- uuid4().hex
  pub jti : Option ℕ
  pub role : Option Role

-- jose's jwt under a secret, and hashlib's sha256. `decode` is none where it raises a JWTError.
pub record Jwt : Type 0 where
  pub encode : (secret : String) → Claims → String
  pub decode : (secret issuer audience : String) → (now : ℕ) → String → Option Claims
  pub sha256 : String → String

pub record AuthSettings : Type 0 where
  pub debug : Bool
  pub jwt_secret_key : String
  pub access_token_expire_minutes : ℕ
  pub refresh_token_expire_days : ℕ

-- What a request finds: the library, the settings, the clock, and whether Redis answers.
pub record AuthEnv : Type 0 where
  pub jwt : Jwt
  pub settings : AuthSettings
  pub now : ℕ
  pub redis_up : Bool

-- _TOKEN_ISSUER and _TOKEN_AUDIENCE
abbrev pub token_issuer : String
token_issuer = "clutchd"

abbrev pub token_audience : String
token_audience = "clutchd-api"

-- _KNOWN_WEAK_SECRETS
abbrev known_weak_secrets : List String
known_weak_secrets =
    "change-me-in-production-use-openssl-rand-hex-32"
    ∷ "950f7a372d6647e83034d1a92325cf5d62f78702ecee0d9f2335036a030011cf" ∷ []

-- The two checks of _check_secret; the second is over _KNOWN_WEAK_HASHES.
unfoldable pub is_weak : Jwt → String → Bool
is_weak jwt secret =
    exists (λ s. str_eq s secret) known_weak_secrets
    || exists (λ h. str_eq h (jwt.sha256 secret)) (map jwt.sha256 known_weak_secrets)

abbrev pub of_type : TokenType → Option Claims → Option Claims
of_type expected none = none
of_type expected (some c) = if type_eq c.type expected then some c else none

module _ (auth : AuthEnv) where
  open auth use {jwt, settings, now}

  -- _check_secret: a RuntimeError is answered by 500.
  abbrev pub check_secret : Action String
  check_secret = do
    raise_if (not settings.debug && is_weak jwt settings.jwt_secret_key) (http 500)
    pure settings.jwt_secret_key

  abbrev pub access_claims : ℕ → Role → ℕ → Claims
  access_claims user role jti = record {
    sub = Subject.of_user user;
    exp = now + settings.access_token_expire_minutes * 60;
    iss = token_issuer;
    aud = token_audience;
    type = TokenType.access;
    jti = some jti;
    role = some role;
  }

  unfoldable pub create_access_token : ℕ → Role → Action String
  create_access_token user role = do
    secret ← check_secret
    jti ← new_id
    pure (jwt.encode secret (access_claims user role jti))

  abbrev pub refresh_claims : ℕ → ℕ → Claims
  refresh_claims user jti = record {
    sub = Subject.of_user user;
    exp = now + settings.refresh_token_expire_days * 86400;
    iss = token_issuer;
    aud = token_audience;
    type = TokenType.refresh;
    jti = some jti;
    role = none;
  }

  unfoldable pub create_refresh_token : ℕ → Action String
  create_refresh_token user = do
    secret ← check_secret
    jti ← new_id
    pure (jwt.encode secret (refresh_claims user jti))

  unfoldable pub decode_token : String → TokenType → Option Claims
  decode_token token expected =
      of_type expected (jwt.decode settings.jwt_secret_key token_issuer token_audience now token)

  -- It fails open if Redis is not there.
  unfoldable pub is_token_blacklisted : ℕ → Redis → Bool
  is_token_blacklisted jti redis = auth.redis_up && exists (λ k. k == jti) (revoked_at now redis)

  -- ttl_seconds = 86400 * 8
  unfoldable pub blacklist_token : ℕ → Action (Unit {0})
  blacklist_token jti w =
      (ok tt, if auth.redis_up then record w { redis = revoke now 691200 jti w.redis } else w)
