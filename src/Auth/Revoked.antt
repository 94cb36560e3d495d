-- ===== src/Auth/Revoked.antt =====
-- Tokens that are revoked, and then sequences of calls.
use clutch_d_backend.Base.{
  ℕ, ◌+◌, ◌≤◌, ◌<◌, ◌≡◌, inl, inr, refl, sym, subst, String, true, Option, none, some, List, ◌==◌,
  arith, Option-cases, ap, ◌∙◌, str_eq, exists, ==_refl, if_elim,
}
use clutch_d_backend.Redis.{Redis, revoke, revoked_at}
use clutch_d_backend.Session.{Action, World, ok, err, http, or_raise, ◌>>=◌}
use clutch_d_backend.Session.Keeps.{IsKept, after-IsKept}
use clutch_d_backend.Auth.Tokens.{
  of_type, TokenType, Claims, Jwt, AuthSettings, AuthEnv, decode_token, is_token_blacklisted,
  blacklist_token, token_issuer, token_audience,
}
use clutch_d_backend.Auth.Access.{
  credentials_or, authenticate_ws, get_current_user, get_current_user_optional, user_of_claims,
  access_token_of, blacklist_id, blacklist_decoded, blacklist_claims, AuthRequest, user_of_token,
  is_revoked, logout, non_empty,
}
use clutch_d_backend.Auth.Calls.{
  IsDead, Call, at, serve_all, IsTimely, serve_all-IsDead, blacklist_decoded-IsKept,
}

-- What is relied on of jose: a token has the same claims whenever it is decoded, and it is not decoded
-- after its time of expiry.
pub record DecodesJose (jwt : Jwt) : Type 0 where
  pub same :
      (secret iss aud t : String) (now later : ℕ) (c c' : Claims)
      → jwt.decode secret iss aud now t ≡ some c
      → jwt.decode secret iss aud later t ≡ some c'
      → c ≡ c'
  pub lives :
      (secret iss aud t : String) (now : ℕ) (c : Claims)
      → jwt.decode secret iss aud now t ≡ some c
      → now ≤ c.exp

pub of_type-some :
    (expected : TokenType) (o : Option Claims) {c : Claims}
    → of_type expected o ≡ some c
    → o ≡ some c
of_type-some expected none h = h
of_type-some expected (some c') h = ground arith

pub IsDead-revoked :
    (auth : AuthEnv) (jti exp : ℕ) (w : World)
    → auth.redis_up ≡ true
    → auth.now ≤ exp
    → IsDead jti exp auth.now w.redis
    → is_revoked auth (some jti) w ≡ true
unfolding is_revoked is_token_blacklisted revoked_at
IsDead-revoked auth jti exp w up alive (inl gone) = absurd (omega (arith, alive, gone))
IsDead-revoked auth jti exp w up alive (inr (there, lives, ends)) = ground arith

-- A token with a dead id authenticates nobody.
user_of_token-dead :
    (auth : AuthEnv) (laws : DecodesJose auth.jwt) (t : String) (c : Claims) (before jti : ℕ)
    (w : World)
    → auth.redis_up ≡ true
    → decode_token (record auth { now = before }) t TokenType.access ≡ some c
    → c.jti ≡ some jti
    → IsDead jti c.exp auth.now w.redis
    → user_of_token auth (some t) w ≡ none
unfolding user_of_token decode_token
user_of_token-dead auth laws t c before jti w up was id dead =
    elim (Option-cases (decode_token auth t TokenType.access)) [
      | inl refused ↦ ap (λ o. user_of_claims auth o w) refused
      | inr (c', now_is) ↦
          let decoded =
            of_type-some TokenType.access
              (auth.jwt.decode auth.settings.jwt_secret_key token_issuer token_audience auth.now t)
              now_is in
          let decoded_before =
            of_type-some TokenType.access
              (auth.jwt.decode auth.settings.jwt_secret_key token_issuer token_audience before t)
              was in
          let same =
            laws.same auth.settings.jwt_secret_key token_issuer token_audience t before auth.now c
              c' decoded_before decoded in
          let alive =
            subst (λ (v : Claims). auth.now ≤ v.exp) (sym same)
              (laws.lives auth.settings.jwt_secret_key token_issuer token_audience t auth.now c'
                decoded) in
          let id' : c'.jti ≡ some jti = ap (λ (v : Claims). v.jti) (sym same) ∙ id in
          let revoked : is_revoked auth c'.jti w ≡ true =
            ap (λ v. is_revoked auth v w) id' ∙ IsDead-revoked auth jti c.exp w up alive dead in
          ap (λ o. user_of_claims auth o w) now_is ∙ rw revoked refl
    ]

blacklist_id-up :
    (auth : AuthEnv) (id : Option ℕ) (jti : ℕ) (w : World)
    → auth.redis_up ≡ true
    → id ≡ some jti
    → blacklist_id auth id w ≡ (ok tt, record w { redis = revoke auth.now 691200 jti w.redis })
unfolding blacklist_token
blacklist_id-up auth id jti w up is = rw is (rw up refl)

revoked_first :
    (jti now : ℕ) (redis : Redis)
    → exists (λ k. k == jti) (revoke now 691200 jti redis).revoked ≡ true
unfolding revoke
revoked_first jti now redis = rw (==_refl jti) refl

ends_then :
    (jti now exp : ℕ) (redis : Redis)
    → exp < now + 691200
    → let next = revoke now 691200 jti redis in
      (exp < next.revoked_ends) × (next.revoked_ends ≤ now + 691200)
unfolding revoke
ends_then jti now exp redis short = (short, omega arith)

user_of_non_empty :
    (auth : AuthEnv) (t : String) (w : World)
    → user_of_token auth (some t) w ≡ none
    → user_of_token auth (non_empty (some t)) w ≡ none
unfolding user_of_token
user_of_non_empty auth t w h =
    if_elim (λ o. user_of_token auth o w ≡ none) (str_eq t "") (λ e. refl) (λ e. h)

-- What follows a revocation keeps the id dead.
pub revoking-IsDead :
    {B : Type 0} (auth : AuthEnv) (c : Claims) (jti : ℕ) (w : World) (m : Action (Unit {0}))
    (f : Unit {0} → Action B)
    → m w ≡ blacklist_claims auth (some c) w
    → auth.redis_up ≡ true
    → c.jti ≡ some jti
    → c.exp < auth.now + 691200
    → IsKept (λ v. IsDead jti c.exp auth.now v.redis) (f tt)
    → IsDead jti c.exp auth.now ((m >>= f) w).1.redis
revoking-IsDead auth c jti w m f is up id short keeps =
    after-IsKept (λ v. IsDead jti c.exp auth.now v.redis) m f w
      (record w { redis = revoke auth.now 691200 jti w.redis })
      (is ∙ blacklist_id-up auth c.jti jti w up id)
      (let (a, b) = ends_then jti auth.now c.exp w.redis short in
        inr (revoked_first jti auth.now w.redis, a, b))
      keeps

-- At its time, `logout` makes the id of the access token of its request dead.
logout-IsDead :
    (auth : AuthEnv) (req : AuthRequest) (t : String) (c : Claims) (jti : ℕ) (w : World)
    → auth.redis_up ≡ true
    → access_token_of req ≡ some t
    → decode_token auth t TokenType.access ≡ some c
    → c.jti ≡ some jti
    → c.exp < auth.now + 691200
    → IsDead jti c.exp auth.now (logout auth req w).1.redis
unfolding logout
logout-IsDead auth req t c jti w up carries decodes id short =
    revoking-IsDead auth c jti w (blacklist_decoded auth (access_token_of req) TokenType.access)
      (λ _. blacklist_decoded auth (non_empty req.refresh_cookie) TokenType.refresh)
      (rw carries (rw decodes refl)) up id short
      (blacklist_decoded-IsKept auth jti c.exp (non_empty req.refresh_cookie) TokenType.refresh)

-- Once an access token is logged out while Redis is up, and if it expires within 8 days, then whatever
-- logouts, refreshes and other handlers follow, the token authenticates nobody at any later time at which
-- Redis is up, neither for a request nor for a WebSocket.
pub logout_forever :
    (jwt : Jwt) (settings : AuthSettings) (laws : DecodesJose jwt) (req : AuthRequest) (t : String)
    (c : Claims) (jti now until : ℕ) (calls : List Call) (w : World)
    → access_token_of req ≡ some t
    → decode_token (at jwt settings now true) t TokenType.access ≡ some c
    → c.jti ≡ some jti
    → c.exp < now + 691200
    → IsTimely now until calls
    → let after = serve_all jwt settings calls (logout (at jwt settings now true) req w).1 in
      (authenticate_ws (at jwt settings until true) (some t) after ≡ none)
      × ((other : AuthRequest)
          → credentials_or other.credentials other.access_cookie ≡ some t
          → get_current_user (at jwt settings until true) other after ≡ (err (http 401), after))
unfolding authenticate_ws get_current_user get_current_user_optional
logout_forever jwt settings laws req t c jti now until calls w carries decodes id short timely =
    let auth = at jwt settings until true in
    let out =
      logout-IsDead (at jwt settings now true) req t c jti w refl carries decodes id short in
    let first = (logout (at jwt settings now true) req w).1 in
    let after = serve_all jwt settings calls first in
    let dead = serve_all-IsDead jwt settings jti c.exp calls now until first timely out in
    let nobody = user_of_token-dead auth laws t c now jti after refl decodes id dead in
    let gone : user_of_token auth (non_empty (some t)) after ≡ none =
      user_of_non_empty auth t after nobody in
    (
      gone,
      λ other carried.
          ap (λ o. or_raise (user_of_token auth (non_empty o) after) (http 401) after) carried
          ∙ ap (λ o. or_raise o (http 401) after) gone,
    )
