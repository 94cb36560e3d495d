-- ===== src/Admin/Barred.antt =====
-- What a suspension keeps somebody from.
use clutch_d_backend.Base.{
  none-some, ℕ, String, ◌≡◌, ◌≢◌, refl, sym, ap, ◌∙◌, Bool, true, false, ◌&&◌, subst,
  find?-none_overwritten, find?-holds, ==_eq, &&_left, Option, none, some, List, [], ◌∷◌, ◌==◌,
  arith, find?, All, All-map, Bool-cases, inl, inr,
}
use mathlib.Core.List.{Memᴰ}
use clutch_d_backend.Schema.{Role, Float, User, Mechanic, Garage}
use clutch_d_backend.Session.{World, Result, ok, err, http, in_session}
use clutch_d_backend.Env.{Env}
use clutch_d_backend.Jobs.Access.{is_admin}
use clutch_d_backend.Matching.Rank.{Ranked}
use clutch_d_backend.Matching.Nearest.{Server, nearest_mechanics, nearest_garages, user_by_id}
use clutch_d_backend.Matching.Found.{
  HasActiveOwner, nearest_mechanics-MayServe, nearest_garages-MayHost,
}
use clutch_d_backend.Auth.Tokens.{TokenType, Claims, AuthEnv, decode_token}
use clutch_d_backend.Auth.Access.{
  is_revoked, subject_id, user_of_subject, user_of_claims, active_user, user_of_token,
}
use clutch_d_backend.Auth.Login.{set_users}
use clutch_d_backend.Admin.Accounts.{toggle_user_status}

-- A suspended user is no active user.
suspended-active :
    (k : ℕ) (users : List User) (u : User)
    → (u.id == k) ≡ true
    → u.is_active ≡ false
    → find? (λ v. v.id == k && v.is_active) (set_users u users) ≡ none
suspended-active k users u at_k off =
    find?-none_overwritten (λ v. v.id == k && v.is_active) (λ v. v.id == u.id) u users
      (ground arith) (λ v hit. ground arith)

suspended-by_id :
    (k : ℕ) (users : List User) (u : User) {v : User}
    → (u.id == k) ≡ true
    → u.is_active ≡ false
    → find? (λ v. v.id == k) (set_users u users) ≡ some v
    → v.is_active ≡ false
suspended-by_id k [] u at_k off h = cc
suspended-by_id k (x ∷ users) u {v = v} at_k off h =
    ground (arith, suspended-by_id k users u {v = v} at_k off)

user_of_subject-active :
    (auth : AuthEnv) (o : Option ℕ) (w : World) {v : User}
    → user_of_subject auth o w ≡ some v
    → (j : ℕ) × (active_user j w.db ≡ some v)
user_of_subject-active auth none w h = absurd (none-some h)
user_of_subject-active auth (some j) w h = (j, h)

user_of_claims-active :
    (auth : AuthEnv) (o : Option Claims) (w : World) {v : User}
    → user_of_claims auth o w ≡ some v
    → (j : ℕ) × (active_user j w.db ≡ some v)
user_of_claims-active auth none w h = absurd (none-some h)
user_of_claims-active auth (some c) w h = elim (Bool-cases (is_revoked auth c.jti w)) [
  | inl gone ↦ absurd (none-some (sym (rw gone refl) ∙ h))
  | inr valid ↦ user_of_subject-active auth (subject_id c.sub) w (sym (rw valid refl) ∙ h)
]

-- Who is authenticated is stored as active.
user_of_token-active :
    (auth : AuthEnv) (t : Option String) (w : World) {v : User}
    → user_of_token auth t w ≡ some v
    → (j : ℕ) × (active_user j w.db ≡ some v)
unfolding user_of_token
user_of_token-active auth none w h = absurd (none-some h)
user_of_token-active auth (some t) w h =
    user_of_claims-active auth (decode_token auth t TokenType.access) w h

-- The user is authenticated by no token, and owns no provider that a search returns.
pub record IsBarred (user : ℕ) (w : World) : Type 0 where
  pub no_access :
      (auth : AuthEnv) (t : Option String) (v : User)
      → user_of_token auth t w ≡ some v
      → v.id ≢ user
  pub no_mechanic :
      (env : Env) (server : Server) (lat lon : Float) (limit : ℕ) (tag : Option String)
      → All
          (λ (r : Ranked).
            (m : Mechanic) × Memᴰ m w.db.mechanics × (r.id ≡ m.id) × (m.user_id ≢ user))
          (nearest_mechanics env server w.db lat lon limit tag)
  pub no_garage :
      (env : Env) (server : Server) (lat lon : Float) (limit : ℕ) (tag : Option String)
      → All
          (λ (r : Ranked). (g : Garage) × Memᴰ g w.db.garages × (r.id ≡ g.id) × (g.user_id ≢ user))
          (nearest_garages env server w.db lat lon limit tag)

inactive_owner :
    (k owner : ℕ) (w : World)
    → ((v : User) → user_by_id k w.db ≡ some v → v.is_active ≡ false)
    → HasActiveOwner owner w.db
    → owner ≢ k
inactive_owner k owner w off (v, found, on) same =
    let out = off v (ap (λ j. user_by_id j w.db) (sym same) ∙ found) in ground (arith, on, out)

inactive-IsBarred :
    (k : ℕ) (w : World)
    → active_user k w.db ≡ none
    → ((v : User) → user_by_id k w.db ≡ some v → v.is_active ≡ false)
    → IsBarred k w
inactive-IsBarred k w gone off = record {
  no_access = λ auth t v h same.
      let (j, found) = user_of_token-active auth t w h in
      let at_j = ==_eq v.id j (
        &&_left (v.id == j) v.is_active
          (find?-holds (λ u. u.id == j && u.is_active) w.db.users found)) in
      none-some (sym gone ∙ ap (λ i. active_user i w.db) (sym same ∙ at_j) ∙ found);
  no_mechanic = λ env server lat lon limit tag.
      All-map
        (λ r (m, serves, lists, id, on, near).
          (m, serves.stored, id, inactive_owner k m.user_id w off serves.owner))
        (nearest_mechanics env server w.db lat lon limit tag)
        (nearest_mechanics-MayServe env w.db server lat lon limit tag).0;
  no_garage = λ env server lat lon limit tag.
      All-map
        (λ r (g, hosts, lists, id, on, near).
          (g, hosts.stored, id, inactive_owner k g.user_id w off hosts.owner))
        (nearest_garages env server w.db lat lon limit tag)
        (nearest_garages-MayHost env w.db server lat lon limit tag).0;
}

module _ (k : ℕ) (admin u : User) (w : World) where
  abbrev pub suspending : Result Bool × World
  suspending = in_session (toggle_user_status k false admin) w

  suspends :
      admin.role ≡ Role.admin
      → user_by_id k w.db ≡ some u
      → is_admin u.role ≡ false
      → suspending ≡ (
        ok false,
        record w {
          db = record w.db { users = set_users (record u { is_active = false }) w.db.users };
        },
      )
  unfolding toggle_user_status in_session
  suspends is stored may = ground arith

  -- An administrator who suspends a stored user that is no administrator succeeds, and then no token
  -- authenticates that user, for a request or a WebSocket, and no search returns a mechanic or a garage
  -- of theirs. Who is no administrator and no superuser gets a 403, and nothing changes.
  pub toggle_user_status_lem :
      user_by_id k w.db ≡ some u
      → (admin.role ≡ Role.admin
          → is_admin u.role ≡ false
          → (suspending.0 ≡ ok false) × IsBarred k suspending.1)
        × (is_admin admin.role ≡ false
            → admin.is_superuser ≡ false
            → suspending ≡ (err (http 403), w))
  unfolding toggle_user_status in_session
  toggle_user_status_lem stored = (
    (λ is may.
        let e = suspends is stored may in
        let at_k = find?-holds (λ v. v.id == k) w.db.users stored in
        let u' = record u { is_active = false } in
        (
          ap (λ (r : Result Bool × World). r.0) e,
          subst (λ (r : Result Bool × World). IsBarred k r.1) (sym e)
              (inactive-IsBarred k
                (record w { db = record w.db { users = set_users u' w.db.users } })
                (suspended-active k w.db.users u' at_k refl)
                (λ v h. suspended-by_id k w.db.users u' at_k refl h)),
        )),
    λ not_admin ordinary. ground arith,
  )
