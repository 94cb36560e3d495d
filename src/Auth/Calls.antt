-- ===== src/Auth/Calls.antt =====
-- Calls in sequence, and what they leave of a revoked token.
use clutch_d_backend.Base.{
  ℕ, ◌+◌, ◌≤◌, ◌<◌, ◌≡◌, ◌⊎◌, inl, inr, sym, subst, String, Bool, true, not, ◌&&◌, Option, none,
  some, List, [], ◌∷◌, ◌==◌, arith, Bool-cases, exists, ltb, if_elim,
}
use clutch_d_backend.Redis.{Redis, revoke, revoked_at}
use clutch_d_backend.Schema.{Db, User, Role}
use clutch_d_backend.Session.{World, http, pure, raise_if, new_id, ◌>>=◌}
use clutch_d_backend.Session.Keeps.{IsKept, bind-IsKept}
use clutch_d_backend.Auth.Tokens.{
  is_weak, check_secret, access_claims, refresh_claims, TokenType, Claims, Jwt, AuthSettings,
  AuthEnv, decode_token, blacklist_token, create_refresh_token, create_access_token,
}
use clutch_d_backend.Auth.Access.{
  rotate, new_tokens, user_of_refresh, access_token_of, blacklist_id, blacklist_decoded,
  blacklist_claims, AuthRequest, logout, refresh_token, non_empty,
}

-- A token with this id and this time of expiry, at a time and before a Redis: it has expired, or it is in
-- the set of revoked tokens, which outlives it.
abbrev pub IsDead : (jti exp now : ℕ) → Redis → Type 0
IsDead jti exp now redis =
    (exp < now)
    ⊎ ((exists (λ k. k == jti) redis.revoked ≡ true)
        × (exp < redis.revoked_ends)
        × (redis.revoked_ends ≤ now + 691200))

revoke-IsDead :
    (jti exp now later other : ℕ) (redis : Redis)
    → now ≤ later
    → IsDead jti exp now redis
    → IsDead jti exp later (revoke later 691200 other redis)
unfolding revoke revoked_at
revoke-IsDead jti exp now later other redis order (inl gone) = inl (omega (arith, order, gone))
revoke-IsDead jti exp now later other redis order (inr (there, lives, ends)) =
    elim (Bool-cases (ltb later redis.revoked_ends)) [
      | inl held ↦ inr (rw held (ground arith), ground arith, omega arith)
      | inr over ↦ inl (ground arith)
    ]

-- A call at a time, with Redis there or not. `writes` is any other handler: the set of revoked tokens is
-- in no other.
pub data Call : Type 0 where
  logs_out refreshes : (now : ℕ) → (redis_up : Bool) → AuthRequest → Call
  writes : (now : ℕ) → (Db → Db) → Call

module _ (jwt : Jwt) (settings : AuthSettings) where
  abbrev pub at : ℕ → Bool → AuthEnv
  at now redis_up = record { jwt = jwt; settings = settings; now = now; redis_up = redis_up }

  abbrev pub serve : Call → World → World
  serve (Call.logs_out now up req) w = (logout (at now up) req w).1
  serve (Call.refreshes now up req) w = (refresh_token (at now up) req w).1
  serve (Call.writes now f) w = record w { db = f w.db }

  abbrev pub serve_all : List Call → World → World
  serve_all [] w = w
  serve_all (c ∷ calls) w = serve_all calls (serve c w)

abbrev pub time_of : Call → ℕ
time_of (Call.logs_out now up req) = now
time_of (Call.refreshes now up req) = now
time_of (Call.writes now f) = now

-- The calls come at times that do not decrease from `now` on and are none after `until`.
abbrev pub IsTimely : (now until : ℕ) → List Call → Type 0
IsTimely now until [] = now ≤ until
IsTimely now until (c ∷ calls) = (now ≤ time_of c) × IsTimely (time_of c) until calls

later-IsDead :
    (jti exp now later : ℕ) (redis : Redis)
    → now ≤ later
    → IsDead jti exp now redis
    → IsDead jti exp later redis
later-IsDead jti exp now later redis order (inl gone) = inl (omega (arith, order, gone))
later-IsDead jti exp now later redis order (inr (there, lives, ends)) =
    inr (there, lives, omega (arith, order, ends))

module _ (auth : AuthEnv) (jti exp : ℕ) where
  abbrev Dead : World → Type 0
  Dead w = IsDead jti exp auth.now w.redis

  blacklist_token-IsKept : (other : ℕ) → IsKept Dead (blacklist_token auth other)
  unfolding blacklist_token
  blacklist_token-IsKept other w dead =
      if_elim (λ v. IsDead jti exp auth.now (World.redis v)) auth.redis_up
        (λ up. revoke-IsDead jti exp auth.now auth.now other w.redis (omega arith) dead)
        (λ down. dead)

  blacklist_id-IsKept : (j : Option ℕ) → IsKept Dead (blacklist_id auth j)
  blacklist_id-IsKept none w dead = dead
  blacklist_id-IsKept (some j) w dead = blacklist_token-IsKept j w dead

  blacklist_claims-IsKept : (c : Option Claims) → IsKept Dead (blacklist_claims auth c)
  blacklist_claims-IsKept none w dead = dead
  blacklist_claims-IsKept (some c) w dead = blacklist_id-IsKept c.jti w dead

  pub blacklist_decoded-IsKept :
      (t : Option String) (expected : TokenType) → IsKept Dead (blacklist_decoded auth t expected)
  blacklist_decoded-IsKept none expected w dead = dead
  blacklist_decoded-IsKept (some t) expected w dead =
      blacklist_claims-IsKept (decode_token auth t expected) w dead

  check_secret-IsKept : IsKept Dead (check_secret auth)
  check_secret-IsKept w dead =
      bind-IsKept Dead
        (raise_if (not auth.settings.debug && is_weak auth.jwt auth.settings.jwt_secret_key)
          (http 500))
        (λ _. pure auth.settings.jwt_secret_key) (λ v d. d) (λ a v d. d) w dead

  create_access_token-IsKept :
      (user : ℕ) (role : Role) → IsKept Dead (create_access_token auth user role)
  unfolding create_access_token
  create_access_token-IsKept user role =
      bind-IsKept Dead (check_secret auth)
        (λ secret.
          new_id >>= λ jti. pure (auth.jwt.encode secret (access_claims auth user role jti)))
        check_secret-IsKept (λ a v d. d)

  create_refresh_token-IsKept : (user : ℕ) → IsKept Dead (create_refresh_token auth user)
  unfolding create_refresh_token
  create_refresh_token-IsKept user =
      bind-IsKept Dead (check_secret auth)
        (λ secret. new_id >>= λ jti. pure (auth.jwt.encode secret (refresh_claims auth user jti)))
        check_secret-IsKept (λ a v d. d)

  logout-IsKept : (req : AuthRequest) → IsKept Dead (logout auth req)
  unfolding logout
  logout-IsKept req =
      bind-IsKept Dead (blacklist_decoded auth (access_token_of req) TokenType.access)
        (λ _. blacklist_decoded auth (non_empty req.refresh_cookie) TokenType.refresh)
        (blacklist_decoded-IsKept (access_token_of req) TokenType.access)
        (λ _. blacklist_decoded-IsKept (non_empty req.refresh_cookie) TokenType.refresh)

  pub new_tokens-IsKept : (user : User) → IsKept Dead (new_tokens auth user)
  new_tokens-IsKept user =
      bind-IsKept Dead (create_refresh_token auth user.id)
        (λ fresh. create_access_token auth user.id user.role >>= λ access. pure (fresh, access))
        (create_refresh_token-IsKept user.id)
        (λ fresh.
          bind-IsKept Dead (create_access_token auth user.id user.role)
            (λ access. pure (fresh, access)) (create_access_token-IsKept user.id user.role)
            (λ access v d. d))

  rotate-IsKept : (c : Claims) (user : User) → IsKept Dead (rotate auth c user)
  unfolding rotate
  rotate-IsKept c user =
      bind-IsKept Dead (blacklist_claims auth (some c)) (λ _. new_tokens auth user)
        (blacklist_claims-IsKept (some c)) (λ _. new_tokens-IsKept user)

  user_of_refresh-world : (req : AuthRequest) (w : World) → (user_of_refresh auth req w).1 ≡ w
  unfolding user_of_refresh
  user_of_refresh-world req w = ground arith

  refresh_token-IsKept : (req : AuthRequest) → IsKept Dead (refresh_token auth req)
  unfolding refresh_token
  refresh_token-IsKept req =
      bind-IsKept Dead (user_of_refresh auth req) (λ found. rotate auth found.0 found.1)
        (λ w dead. subst Dead (sym (user_of_refresh-world req w)) dead)
        (λ found. rotate-IsKept found.0 found.1)

module _ (jwt : Jwt) (settings : AuthSettings) (jti exp : ℕ) where
  serve-IsDead :
      (c : Call) (now : ℕ) (w : World)
      → now ≤ time_of c
      → IsDead jti exp now w.redis
      → IsDead jti exp (time_of c) (serve jwt settings c w).redis
  serve-IsDead (Call.logs_out t up req) now w order dead =
      logout-IsKept (at jwt settings t up) jti exp req w
        (later-IsDead jti exp now t w.redis order dead)
  serve-IsDead (Call.refreshes t up req) now w order dead =
      refresh_token-IsKept (at jwt settings t up) jti exp req w
        (later-IsDead jti exp now t w.redis order dead)
  serve-IsDead (Call.writes t f) now w order dead = later-IsDead jti exp now t w.redis order dead

  pub serve_all-IsDead :
      (calls : List Call) (now until : ℕ) (w : World)
      → IsTimely now until calls
      → IsDead jti exp now w.redis
      → IsDead jti exp until (serve_all jwt settings calls w).redis
  serve_all-IsDead [] now until w order dead = later-IsDead jti exp now until w.redis order dead
  serve_all-IsDead (c ∷ calls) now until w (first, rest) dead =
      serve_all-IsDead calls (time_of c) until (serve jwt settings c w) rest
        (serve-IsDead c now w first dead)
