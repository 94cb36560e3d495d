-- ===== src/Auth/Issued.antt =====
-- What the tokens that the server issues are good for.
use clutch_d_backend.Base.{
  none-some, ℕ, suc, ◌+◌, ◌≤◌, ◌<◌, ◌≡◌, refl, sym, subst, ◌⊎◌, leb, ap, ◌∙◌, inl, inr, String,
  true, false, not, ◌&&◌, none, some, List, arith, Option-cases, Bool-cases,
}
use clutch_d_backend.Schema.{User}
use clutch_d_backend.Session.{World, Result, ok}
use clutch_d_backend.Session.Keeps.{bind-ok}
use clutch_d_backend.Auth.Tokens.{
  TokenType, Claims, Jwt, AuthSettings, AuthEnv, is_weak, decode_token, blacklist_token,
  access_claims, refresh_claims, create_access_token, create_refresh_token, token_issuer,
  token_audience,
}
use clutch_d_backend.Auth.Access.{
  blacklist_claims, new_tokens, AuthRequest, active_user, subject_id, is_revoked, user_of_token,
  refresh_token_of, refresh_token, user_of_refresh, rotate,
}
use clutch_d_backend.Auth.Calls.{
  new_tokens-IsKept, serve_all-IsDead, Call, IsDead, IsTimely, at, serve_all,
}
use clutch_d_backend.Auth.Revoked.{of_type-some, revoking-IsDead, IsDead-revoked, DecodesJose}

-- What is relied on of jose for a token: under the same secret it is decoded to what was encoded, until it
-- expires.
abbrev pub RoundTrips : Jwt → String → Claims → Type 0
RoundTrips jwt secret c =
    (now : ℕ) → now ≤ c.exp → jwt.decode secret c.iss c.aud now (jwt.encode secret c) ≡ some c

module _ (auth : AuthEnv) (later : ℕ) (laws : DecodesJose auth.jwt) (u : User)
    (w after : World) where
  abbrev secret : String
  secret = auth.settings.jwt_secret_key

  abbrev issued : Claims
  issued = access_claims auth u.id u.role w.next_id

  abbrev token : String
  token = auth.jwt.encode secret issued

  abbrev auth_then : AuthEnv
  auth_then = record auth { now = later }

  -- Later the token has its claims, before they expire, or is not decoded.
  decoded_later :
      RoundTrips auth.jwt secret issued
      → ((auth.jwt.decode secret token_issuer token_audience later token ≡ none)
          × (issued.exp < later))
        ⊎ ((auth.jwt.decode secret token_issuer token_audience later token ≡ some issued)
            × (later ≤ issued.exp))
  decoded_later round =
      elim (Option-cases (auth.jwt.decode secret token_issuer token_audience later token)) [
        | inl refused ↦ elim (Bool-cases (leb later issued.exp)) [
          | inl early ↦ absurd (none-some (sym refused ∙ round later (ground arith)))
          | inr late ↦ inl (refused, ground arith)
        ]
        | inr (c, decoded) ↦
            let same =
              laws.same secret token_issuer token_audience token auth.now later issued c
                (round auth.now (omega arith)) decoded in
            let lives = laws.lives secret token_issuer token_audience token later c decoded in
            inr
              (decoded ∙ ap some (sym same), subst (λ (v : Claims). later ≤ v.exp) (sym same) lives)
      ]

  -- An access token that is issued under a secret that is not a known one is, at a later time, when it is
  -- not revoked and its user is stored and active, that user's for a request until it expires, and then
  -- nobody's; it is never taken for a refresh token.
  pub create_access_token_lem :
      (not auth.settings.debug && is_weak auth.jwt secret) ≡ false
      → RoundTrips auth.jwt secret issued
      → active_user u.id after.db ≡ some u
      → is_revoked auth_then (some w.next_id) after ≡ false
      → ((create_access_token auth u.id u.role w).0 ≡ ok token)
        × (later ≤ issued.exp → user_of_token auth_then (some token) after ≡ some u)
        × (issued.exp < later → user_of_token auth_then (some token) after ≡ none)
        × (decode_token auth_then token TokenType.refresh ≡ none)
  unfolding create_access_token user_of_token decode_token
  create_access_token_lem strong round stored valid = elim (decoded_later round) [
    | inl (refused, late) ↦ (
      rw strong refl,
      (λ early. absurd (omega (arith, early, late))),
      (λ _. rw refused refl),
      rw refused refl,
    )
    | inr (decoded, early) ↦ (
      rw strong refl,
      (λ _. rw decoded (rw valid stored)),
      (λ late. absurd (omega (arith, early, late))),
      rw decoded refl,
    )
  ]

-- Refreshing and then refreshing again.
module _ (jwt : Jwt) (settings : AuthSettings) (u : User) (c : Claims) (req : AuthRequest)
    (t : String) where
  abbrev pub answer : ℕ → World → Result (String × String)
  answer now w =
      let auth = at jwt settings now true in
      ok (
        jwt.encode settings.jwt_secret_key (refresh_claims auth u.id w.next_id),
        jwt.encode settings.jwt_secret_key (access_claims auth u.id u.role (suc w.next_id)),
      )

  user_of_refresh-stored :
      (now : ℕ) (w : World)
      → refresh_token_of req ≡ some t
      → decode_token (at jwt settings now true) t TokenType.refresh ≡ some c
      → subject_id c.sub ≡ some u.id
      → active_user u.id w.db ≡ some u
      → user_of_refresh (at jwt settings now true) req w ≡ (ok (c, u), w)
  unfolding user_of_refresh
  user_of_refresh-stored now w carries decodes sub stored = ground arith

  rotate-answer :
      (now : ℕ) (w : World)
      → (not settings.debug && is_weak jwt settings.jwt_secret_key) ≡ false
      → (rotate (at jwt settings now true) c u w).0 ≡ answer now w
  unfolding rotate blacklist_token create_access_token create_refresh_token
  rotate-answer now w strong = elim (Option-cases c.jti) [
    | inl no_id ↦ ground arith
    | inr (j, id) ↦ ground arith
  ]

  -- A request with this token at a time at which it is decoded, for an active user.
  refresh_token-answer :
      (now : ℕ) (w : World)
      → refresh_token_of req ≡ some t
      → decode_token (at jwt settings now true) t TokenType.refresh ≡ some c
      → subject_id c.sub ≡ some u.id
      → active_user u.id w.db ≡ some u
      → (not settings.debug && is_weak jwt settings.jwt_secret_key) ≡ false
      → (refresh_token (at jwt settings now true) req w).0 ≡ answer now w
  unfolding refresh_token user_of_refresh rotate
  refresh_token-answer now w carries decodes sub stored strong =
      let auth = at jwt settings now true in
      ap (λ r. r.0)
        (bind-ok (user_of_refresh auth req) (λ (c', u'). rotate auth c' u') w w
          (user_of_refresh-stored now w carries decodes sub stored))
      ∙ rotate-answer now w strong

  refresh_token-IsDead :
      (jti now : ℕ) (w : World)
      → refresh_token_of req ≡ some t
      → decode_token (at jwt settings now true) t TokenType.refresh ≡ some c
      → subject_id c.sub ≡ some u.id
      → active_user u.id w.db ≡ some u
      → c.jti ≡ some jti
      → c.exp < now + 691200
      → IsDead jti c.exp now (refresh_token (at jwt settings now true) req w).1.redis
  unfolding refresh_token rotate
  refresh_token-IsDead jti now w carries decodes sub stored id short =
      let auth = at jwt settings now true in
      subst (λ (r : Result (String × String) × World). IsDead jti c.exp now r.1.redis)
        (sym (
          bind-ok (user_of_refresh auth req) (λ (c', u'). rotate auth c' u') w w
            (user_of_refresh-stored now w carries decodes sub stored)))
        (revoking-IsDead auth c jti w (blacklist_claims auth (some c)) (λ _. new_tokens auth u) refl
          refl id short (new_tokens-IsKept auth jti c.exp u))

  -- A refresh token is not used up: after a refresh with it while Redis is up, and any further calls, its
  -- id is among the revoked ones, and while the token is decoded and its user is active, the same request
  -- succeeds again and gets two new tokens.
  pub refresh_token_twice :
      (laws : DecodesJose jwt) (jti now until : ℕ) (calls : List Call) (w : World)
      → let first = refresh_token (at jwt settings now true) req w in
        let after = serve_all jwt settings calls first.1 in
        refresh_token_of req ≡ some t
        → decode_token (at jwt settings now true) t TokenType.refresh ≡ some c
        → decode_token (at jwt settings until true) t TokenType.refresh ≡ some c
        → subject_id c.sub ≡ some u.id
        → c.jti ≡ some jti
        → c.exp < now + 691200
        → active_user u.id w.db ≡ some u
        → active_user u.id after.db ≡ some u
        → (not settings.debug && is_weak jwt settings.jwt_secret_key) ≡ false
        → IsTimely now until calls
        → (first.0 ≡ answer now w)
          × (is_revoked (at jwt settings until true) (some jti) after ≡ true)
          × ((refresh_token (at jwt settings until true) req after).0 ≡ answer until after)
  unfolding decode_token
  refresh_token_twice laws jti now until calls w carries decodes again sub id short stored kept
        strong timely =
      let first = (refresh_token (at jwt settings now true) req w).1 in
      let after = serve_all jwt settings calls first in
      let out = refresh_token-IsDead jti now w carries decodes sub stored id short in
      let dead = serve_all-IsDead jwt settings jti c.exp calls now until first timely out in
      let decoded =
        of_type-some TokenType.refresh
          (jwt.decode settings.jwt_secret_key token_issuer token_audience until t) again in
      let alive =
        laws.lives settings.jwt_secret_key token_issuer token_audience t until c decoded in
      (
        refresh_token-answer now w carries decodes sub stored strong,
        IsDead-revoked (at jwt settings until true) jti c.exp after refl alive dead,
        refresh_token-answer until after carries again sub kept strong,
      )
